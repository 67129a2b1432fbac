-- ===== src/Base64/RoundTrip.antt =====
-- On bytes, decoding undoes encoding, and what is encoded is ASCII.
use test_minio.Base.{
  ℕ, ◌+◌, ◌*◌, ◌/◌, ◌%◌, ◌<◌, ◌≡◌, refl, List, [], ◌∷◌, ◌++◌, ok, ◌>>=◌, arith, All, length,
}
use test_minio.Base64.Bytes.{
  alphabet, b2a, sextet, symbol, push, a2b_loop, Quad, quad0, quad1, quad2, quad3,
}

symbol-alphabet : (s : ℕ) → s < 64 → symbol (alphabet s) ≡ sextet s
unfolding symbol alphabet
symbol-alphabet s h = ground arith

a2b_loop-alphabet :
    (q : Quad) (s : ℕ) (rest : List ℕ)
    → s < 64
    → a2b_loop q 0 (alphabet s ∷ rest)
      ≡ (a2b_loop (push q s).0 0 rest >>= λ bytes. ok ((push q s).1 ++ bytes))
unfolding a2b_loop
a2b_loop-alphabet q s rest h = rw (symbol-alphabet s h, a2b_loop)

pub a2b_loop-b2a : (xs : List ℕ) → All (λ b. b < 256) xs → a2b_loop quad0 0 (b2a xs) ≡ ok xs
unfolding b2a push
a2b_loop-b2a [] h = unfold a2b_loop in refl
a2b_loop-b2a (a ∷ []) h = rw (a2b_loop-alphabet quad0 (a / 4) _ (omega arith)) (
    rw (a2b_loop-alphabet (quad1 (a / 4)) (a % 4 * 16) _ (omega arith))
      (unfold a2b_loop symbol in ground arith))
a2b_loop-b2a (a ∷ b ∷ []) h = rw (a2b_loop-alphabet quad0 (a / 4) _ (omega arith)) (
    rw (a2b_loop-alphabet (quad1 (a / 4)) (a % 4 * 16 + b / 16) _ (omega arith)) (
      rw (a2b_loop-alphabet (quad2 _) (b % 16 * 4) _ (omega arith))
        (unfold a2b_loop symbol in ground arith)))
a2b_loop-b2a (a ∷ b ∷ c ∷ rest) h = rw (a2b_loop-alphabet quad0 (a / 4) _ (omega arith)) (
    rw (a2b_loop-alphabet (quad1 (a / 4)) (a % 4 * 16 + b / 16) _ (omega arith)) (
      rw (a2b_loop-alphabet (quad2 _) (b % 16 * 4 + c / 64) _ (omega arith)) (
        rw (a2b_loop-alphabet (quad3 _) (c % 64) _ (omega arith))
          (rw (a2b_loop-b2a rest h.1.1.1) (ground arith)))))

alphabet-lt : (s : ℕ) → alphabet s < 128
unfolding alphabet
alphabet-lt s = ground arith

pub b2a-All : (xs : List ℕ) → All (λ b. b < 128) (b2a xs)
unfolding b2a
b2a-All [] = tt
b2a-All (a ∷ []) = (alphabet-lt _, (alphabet-lt _, omega arith))
b2a-All (a ∷ b ∷ []) = (alphabet-lt _, (alphabet-lt _, (alphabet-lt _, omega arith)))
b2a-All (a ∷ b ∷ c ∷ rest) =
    (alphabet-lt _, (alphabet-lt _, (alphabet-lt _, (alphabet-lt _, b2a-All rest))))

-- Every started group of three bytes takes four characters.
pub length-b2a : (xs : List ℕ) → length (b2a xs) ≡ 4 * ((length xs + 2) / 3)
unfolding b2a
length-b2a [] = omega arith
length-b2a (a ∷ []) = omega arith
length-b2a (a ∷ b ∷ []) = omega arith
length-b2a (a ∷ b ∷ c ∷ rest) = omega (arith, length-b2a rest)
