-- ===== src/Base64/TextTrip.antt =====
-- The same for the scripts' functions on texts, with the errors of the codecs.
use Prim.Native.Char.{code}
use mathlib.Core.Logic.{dif_pos}
use native.Mathlib.Decide.{dec_lt}
use native.Mathlib.Bridge.{le_prop}
use text.Mathlib.TextEquality.{Char-path}
use test_minio.Base.{
  ℕ, ◌<◌, String, ◌≡◌, refl, ap, ◌∙◌, List, [], ◌∷◌, ok, err, unicode_error, subst, Result-cases,
  ok_of_bind, inl, inr, arith, All,
}
use test_minio.Base.Text.{chr, code-chr}
use test_minio.Base64.{b64encode, b64decode, b64encode_utf8}
use test_minio.Base64.Codec.{IsAscii, ascii_encode, ascii_decode, utf8_encode}
use test_minio.Base64.Bytes.{b2a, a2b}
use test_minio.Base64.RoundTrip.{a2b_loop-b2a, b2a-All}

-- the code points of an ASCII text
codes : String → List ℕ
codes String.[] = []
codes (String.◌∷◌ c s) = code c ∷ codes s

ascii_encode-codes : (s : String) → IsAscii s → ascii_encode s ≡ ok (codes s)
unfolding ascii_encode codes
ascii_encode-codes String.[] h = refl
ascii_encode-codes (String.◌∷◌ c s) h = rw (ascii_encode-codes s h.1) (ground arith)

codes-All : (s : String) → IsAscii s → All (λ b. b < 256) (codes s)
unfolding codes
codes-All String.[] h = tt
codes-All (String.◌∷◌ c s) h = (omega arith, codes-All s h.1)

ascii_decode-codes : (s : String) → IsAscii s → ascii_decode (codes s) ≡ ok s
unfolding ascii_decode codes
ascii_decode-codes String.[] h = refl
ascii_decode-codes (String.◌∷◌ c s) h =
    dif_pos (dec_lt (code c) 128) le_prop h.0 _ _
    ∙ rw (ascii_decode-codes s h.1)
        (ap (λ d. ok (String.◌∷◌ d s)) (Char-path (chr (code c) h.0) c (code-chr _ h.0)))

-- the text of ASCII bytes
text_of : (xs : List ℕ) → All (λ b. b < 128) xs → String
text_of [] h = ""
text_of (b ∷ xs) h = String.◌∷◌ (chr b h.0) (text_of xs h.1)

ascii_decode-text_of :
    (xs : List ℕ) (h : All (λ b. b < 128) xs) → ascii_decode xs ≡ ok (text_of xs h)
unfolding ascii_decode text_of
ascii_decode-text_of [] h = refl
ascii_decode-text_of (b ∷ xs) h =
    dif_pos (dec_lt b 128) le_prop h.0 _ _ ∙ rw (ascii_decode-text_of xs h.1)

ascii_encode-text_of :
    (xs : List ℕ) (h : All (λ b. b < 128) xs) → ascii_encode (text_of xs h) ≡ ok xs
unfolding ascii_encode text_of chr
ascii_encode-text_of [] h = refl
ascii_encode-text_of (b ∷ xs) h = rw (ascii_encode-text_of xs h.1) (ground arith)

-- Encoding an ASCII text gives a text, and decoding that gives the first text back.
pub b64decode-b64encode :
    (s : String) → IsAscii s → (t : String) × (b64encode s ≡ ok t) × (b64decode t ≡ ok s)
unfolding b64encode b64decode a2b
b64decode-b64encode s h = (
  text_of (b2a (codes s)) (b2a-All (codes s)),
  rw (ascii_encode-codes s h) (ascii_decode-text_of _ _),
  rw ascii_encode-text_of (rw (a2b_loop-b2a (codes s) (codes-All s h)) (ascii_decode-codes s h)),
)

-- What the ASCII codec accepts is ASCII.
ascii_encode-IsAscii : (s : String) {xs : List ℕ} → ascii_encode s ≡ ok xs → IsAscii s
unfolding ascii_encode
ascii_encode-IsAscii String.[] h = tt
ascii_encode-IsAscii (String.◌∷◌ c s) h = elim (dec_lt (code c) 128) [
  | yes p ↦ elim (Result-cases (ascii_encode s)) [
    | inl (ys, e) ↦ (p, ascii_encode-IsAscii s e)
    | inr (e, q) ↦ absurd (ground arith)
  ]
  | no p ↦ absurd (ground arith)
]

-- Encoding raises `UnicodeEncodeError` on a text that is not ASCII.
ascii_encode_fails : (s : String) → ¬ IsAscii s → ascii_encode s ≡ err unicode_error
unfolding ascii_encode
ascii_encode_fails String.[] h = absurd (h tt)
ascii_encode_fails (String.◌∷◌ c s) h = elim (dec_lt (code c) 128) [
  | yes p ↦ rw (ascii_encode_fails s (λ r. h (p, r))) (ground arith)
  | no p ↦ ground arith
]

-- Encoding a text that is not ASCII raises UnicodeEncodeError.
pub b64encode_fails : (s : String) → ¬ IsAscii s → b64encode s ≡ err unicode_error
unfolding b64encode
b64encode_fails s h = rw (ascii_encode_fails s h)

-- A text that `b64encode` returns decodes to its argument.
pub b64decode_of_b64encode : (s t : String) → b64encode s ≡ ok t → b64decode t ≡ ok s
unfolding b64encode
b64decode_of_b64encode s t h =
    let (bytes, e, f) = ok_of_bind (ascii_encode s) (λ bytes. ascii_decode (b2a bytes)) t h in
    let (u, g, back) = b64decode-b64encode s (ascii_encode-IsAscii s e) in
    let same : u ≡ t = ground arith in subst (λ x. b64decode x ≡ ok s) same back

utf8_encode-codes : (s : String) → IsAscii s → utf8_encode s ≡ codes s
unfolding utf8_encode codes
utf8_encode-codes String.[] h = refl
utf8_encode-codes (String.◌∷◌ c s) h = rw (utf8_encode-codes s h.1) (ground arith)

-- On ASCII texts the encoder through UTF-8 is the one through ASCII.
pub b64encode_utf8-eq : (s : String) → IsAscii s → b64encode_utf8 s ≡ b64encode s
unfolding b64encode b64encode_utf8
b64encode_utf8-eq s h = rw (ascii_encode-codes s h) (rw (utf8_encode-codes s h))
