-- ===== src/Base64/Codec.antt =====
-- The codecs of `str.encode` and `bytes.decode`: `ascii`, which raises on any code above 127, and
-- the encoder of `utf-8`.
use Prim.Native.Char.{code}
use mathlib.Core.Logic.{dite}
use native.Mathlib.Decide.{dec_lt}
use test_minio.Base.{
  ℕ, ◌+◌, ◌/◌, ◌%◌, ◌<◌, String, List, [], ◌∷◌, ◌++◌, Result, ok, err, ◌>>=◌, unicode_error, ltb,
  if◌then◌else◌,
}
use test_minio.Base.Text.{chr}

abbrev pub IsAscii : String → Type 0
IsAscii String.[] = Unit
IsAscii (String.◌∷◌ c s) = (code c < 128) × IsAscii s

-- source.encode('ascii')
unfoldable pub ascii_encode : String → Result (List ℕ)
ascii_encode String.[] = ok []
ascii_encode (String.◌∷◌ c s) =
    if ltb (code c) 128 then (do rest ← ascii_encode s; ok (code c ∷ rest)) else err unicode_error

-- source.decode('ascii')
unfoldable pub ascii_decode : List ℕ → Result String
unfolding chr dec_lt
ascii_decode [] = ok ""
ascii_decode (b ∷ bytes) =
    dite (dec_lt b 128) (λ h. do rest ← ascii_decode bytes; ok (String.◌∷◌ (chr b h) rest))
      (λ _. err unicode_error)

-- bytes(source, 'utf-8')
utf8_char : ℕ → List ℕ
utf8_char n =
    if ltb n 0x80
    then n ∷ []
    else if ltb n 0x800
    then (0xc0 + n / 64) ∷ (0x80 + n % 64) ∷ []
    else if ltb n 0x10000
    then (0xe0 + n / 4096) ∷ (0x80 + n / 64 % 64) ∷ (0x80 + n % 64) ∷ []
    else (0xf0 + n / 262144) ∷ (0x80 + n / 4096 % 64) ∷ (0x80 + n / 64 % 64) ∷ (0x80 + n % 64) ∷ []

unfoldable pub utf8_encode : String → List ℕ
unfolding utf8_char
utf8_encode String.[] = []
utf8_encode (String.◌∷◌ c s) = utf8_char (code c) ++ utf8_encode s
