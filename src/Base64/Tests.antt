-- ===== src/Base64/Tests.antt =====
-- Runs of the encoder and the decoder, and the theorems at concrete texts.
use test_minio.Base.{String, ◌≡◌, refl, ok, err, unicode_error, binascii_error, arith}
use test_minio.Base64.{b64encode, b64decode, b64encode_utf8}
use test_minio.Base64.Codec.{IsAscii, ascii_encode, ascii_decode, utf8_encode}
use test_minio.Base64.Bytes.{alphabet, b2a, a2b}
use test_minio.Base64.TextTrip.{b64decode-b64encode, b64encode_fails}

encode_padded : b64encode "minioadmin" ≡ ok "bWluaW9hZG1pbg=="
unfolding b64encode ascii_encode ascii_decode b2a alphabet
encode_padded = refl

encode_utf8 : b64encode_utf8 "é" ≡ ok "w6k="
unfolding b64encode_utf8 utf8_encode ascii_decode b2a alphabet
encode_utf8 = refl

-- What is not in the alphabet is skipped, and a missing end is an error.
decode_lenient :
    (b64decode "bWlu\naW8=" ≡ ok "minio")
    × (b64decode "bWl" ≡ err binascii_error)
    × (b64decode "w6k=" ≡ err unicode_error)
unfolding b64decode ascii_encode ascii_decode a2b
decode_lenient = (refl, refl, refl)

b64decode-b64encode_example : (t : String) × (b64encode "true" ≡ ok t) × (b64decode t ≡ ok "true")
b64decode-b64encode_example = b64decode-b64encode "true" (omega arith)

not-IsAscii : ¬ IsAscii "é"
not-IsAscii h = omega arith

encode_accent : b64encode "é" ≡ err unicode_error
encode_accent = b64encode_fails "é" not-IsAscii
