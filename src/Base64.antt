-- ===== src/Base64.antt =====
-- The base64 functions of the scripts (`b64encode` and `b64decode` of
-- bootstrap/components/dex-secret-ldap/entrypoint.py, `b64encode` of
-- bootstrap/components/minio-config/entrypoint.py) and what they use of Python's standard library:
-- the codecs `ascii` and `utf-8`, `base64.b64encode` and `base64.b64decode` (not strict, as
-- `binascii.a2b_base64` runs by default: characters outside the alphabet are skipped).
mod Tests
pub mod Codec
pub mod Bytes
pub mod RoundTrip
pub mod TextTrip
use test_minio.Base.{ℕ, String, List, Result, ok, ◌>>=◌}
use test_minio.Base64.Bytes.{b2a, a2b}
use test_minio.Base64.Codec.{ascii_encode, ascii_decode, utf8_encode}

-- base64.b64encode(source.encode('ascii')).decode('ascii')
unfoldable pub b64encode : String → Result String
b64encode source = do bytes ← ascii_encode source; ascii_decode (b2a bytes)

-- base64.b64decode(source.encode('ascii')).decode('ascii')
unfoldable pub b64decode : String → Result String
b64decode source = do bytes ← ascii_encode source; decoded ← a2b bytes; ascii_decode decoded

-- base64.b64encode(bytes(source, 'utf-8')).decode('utf-8'); what `b2a` writes is ASCII, on which the
-- two codecs agree.
unfoldable pub b64encode_utf8 : String → Result String
b64encode_utf8 source = ascii_decode (b2a (utf8_encode source))
