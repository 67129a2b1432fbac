-- ===== src/Base64/Bytes.antt =====
-- `base64.b64encode` and `base64.b64decode` on bytes, as CPython's `binascii` computes them.
use test_minio.Base.{
  ℕ, ◌+◌, ◌-◌, ◌*◌, ◌/◌, ◌%◌, true, false, ◌&&◌, List, [], ◌∷◌, ◌++◌, Result, ok, err,
  binascii_error, ltb, leb, ◌=ℕ=◌, ◌>>=◌, if◌then◌else◌,
}

-- the character of a group of six bits
unfoldable pub alphabet : ℕ → ℕ
alphabet s =
    if ltb s 26
    then s + 65
    else if ltb s 52
    then s + 71
    else if ltb s 62
    then s - 4
    else if s =ℕ= 62
    then b'+'
    else b'/'

abbrev pub pad_char : ℕ
pad_char = b'='

-- base64.b64encode
unfoldable pub b2a : List ℕ → List ℕ
b2a [] = []
b2a (a ∷ []) = alphabet (a / 4) ∷ alphabet (a % 4 * 16) ∷ pad_char ∷ pad_char ∷ []
b2a (a ∷ b ∷ []) =
    alphabet (a / 4) ∷ alphabet (a % 4 * 16 + b / 16) ∷ alphabet (b % 16 * 4) ∷ pad_char ∷ []
b2a (a ∷ b ∷ c ∷ rest) =
    alphabet (a / 4)
    ∷ alphabet (a % 4 * 16 + b / 16)
    ∷ alphabet (b % 16 * 4 + c / 64)
    ∷ alphabet (c % 64)
    ∷ b2a rest

pub data Symbol : Type 0 where
  pad skip : Symbol
  sextet : ℕ → Symbol

-- the entry of `table_a2b_base64`
unfoldable pub symbol : ℕ → Symbol
symbol c =
    if c =ℕ= pad_char
    then pad
    else if leb b'A' c && leb c b'Z'
    then sextet (c - 65)
    else if leb b'a' c && leb c b'z'
    then sextet (c - 71)
    else if leb b'0' c && leb c b'9'
    then sextet (c + 4)
    else if c =ℕ= b'+'
    then sextet 62
    else if c =ℕ= b'/'
    then sextet 63
    else skip

-- `quad_pos`, with `leftchar` where it is in use
pub data Quad : Type 0 where
  quad0 : Quad
  quad1 quad2 quad3 : ℕ → Quad

abbrev pub quad_pos : Quad → ℕ
quad_pos quad0 = 0
quad_pos (quad1 l) = 1
quad_pos (quad2 l) = 2
quad_pos (quad3 l) = 3

-- One more group of six bits: the next state, and the byte that is complete.
unfoldable pub push : Quad → ℕ → Quad × List ℕ
push quad0 s = (quad1 s, [])
push (quad1 l) s = (quad2 (s % 16), (l * 4 + s / 16) ∷ [])
push (quad2 l) s = (quad3 (s % 4), (l * 16 + s / 4) ∷ [])
push (quad3 l) s = (quad0, (l * 64 + s) ∷ [])

-- The loop of `a2b_base64`. Enough padding in place ends the text; padding elsewhere is ignored; a
-- text that ends inside a group of four raises `binascii.Error`.
unfoldable pub a2b_loop : Quad → ℕ → List ℕ → Result (List ℕ)
a2b_loop q pads [] = if quad_pos q =ℕ= 0 then ok [] else err binascii_error
a2b_loop q pads (c ∷ rest) = elim (symbol c) [
  | skip ↦ a2b_loop q pads rest
  | pad ↦
      let pads' : ℕ = if leb 2 (quad_pos q) then pads + 1 else pads in
      elim (leb 2 (quad_pos q) && leb 4 (quad_pos q + pads')) [
        | true ↦ ok []
        | false ↦ a2b_loop q pads' rest
      ]
  | sextet s ↦ do bytes ← a2b_loop (push q s).0 0 rest; ok ((push q s).1 ++ bytes)
]

-- base64.b64decode
unfoldable pub a2b : List ℕ → Result (List ℕ)
unfolding a2b_loop symbol push
a2b bytes = a2b_loop quad0 0 bytes
