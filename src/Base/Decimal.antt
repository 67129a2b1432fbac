-- ===== src/Base/Decimal.antt =====
-- `f"{n}"`: a number in decimal, by counting up from "0".
use Prim.Native.Nat.{ℕ, zero, suc, ◌+◌, ◌*◌, ◌-◌, ◌<◌, ◌≤◌}
use Prim.Native.Char.{Char, char, code}
use Prim.Native.String.{String}
use mathlib.Core.Bool.{Bool, true, false}
use mathlib.Core.Path.{◌≡◌, refl, ap, sym, ◌∙◌, subst}
use native.Mathlib.Decide.{dec_lt}
use native.Mathlib.Omega.{arith}
use test_minio.Base.Text.{chr, code-chr}

-- The text of one more, and whether a 1 is still to be put in front of it.
abbrev Numeral : Type 0
Numeral = Bool × String

pub below_128 : (n : ℕ) → n < 57 → suc n < 128
below_128 n h = omega arith

abbrev next_digit : (c : Char) → code c < 57 → Char
next_digit c h = chr (suc (code c)) (below_128 (code c) h)

abbrev zero_digit : Char
zero_digit = char b'0' tt

abbrev one_digit : Char
one_digit = char b'1' tt

-- A digit below 9 takes the carry.
abbrev take_carry : (c : Char) → String → Dec (code c < 57) → Numeral
take_carry c t (yes h) = (false, String.◌∷◌ (next_digit c h) t)
take_carry c t (no h) = (true, String.◌∷◌ zero_digit t)

carry_over : Char → Numeral → Numeral
carry_over c (false, t) = (false, String.◌∷◌ c t)
carry_over c (true, t) = take_carry c t (dec_lt (code c) 57)

increment : String → Numeral
unfolding carry_over dec_lt
increment String.[] = (true, "")
increment (String.◌∷◌ c s) = carry_over c (increment s)

abbrev finish : Numeral → String
finish (true, t) = String.◌∷◌ one_digit t
finish (false, t) = t

unfoldable pub decimal : ℕ → String
unfolding increment
decimal zero = "0"
decimal (suc n) = finish (increment (decimal n))

-- The number that the digits stand for, behind those read before.
read : ℕ → String → ℕ
read acc String.[] = acc
read acc (String.◌∷◌ c s) = read (acc * 10 + (code c - 48)) s

abbrev Digits : String → Type 0
Digits String.[] = Unit
Digits (String.◌∷◌ c s) = (48 ≤ code c) × (code c ≤ 57) × Digits s

-- What one more means for the number that is read, and for the digits.
abbrev Counts : String → Numeral → Type 0
Counts s (true, t) = ((acc : ℕ) → read (suc acc) t ≡ suc (read acc s)) × Digits t
Counts s (false, t) = ((acc : ℕ) → read acc t ≡ suc (read acc s)) × Digits t

-- A digit below 9 counts up, and 9 passes the carry on.
next_digit-Counts :
    (c : Char) (h : code c < 57) (s t : String)
    → 48 ≤ code c
    → Counts s (true, t)
    → Counts (String.◌∷◌ c s) (false, String.◌∷◌ (next_digit c h) t)
unfolding read
next_digit-Counts c h s t l (reads, digits) = (
  λ acc.
      rw (code-chr (suc (code c)) (below_128 (code c) h), next_place acc)
        (reads (acc * 10 + (code c - 48))),
  (rw code-chr (omega arith), rw code-chr (omega arith), digits),
)
  where
    next_place : (acc : ℕ) → acc * 10 + (suc (code c) - 48) ≡ suc (acc * 10 + (code c - 48))
    next_place acc = omega arith

nine-Counts :
    (c : Char) (s t : String)
    → code c ≡ 57
    → Counts s (true, t)
    → Counts (String.◌∷◌ c s) (true, String.◌∷◌ zero_digit t)
unfolding read
nine-Counts c s t h (reads, digits) =
    (λ acc. rw (carried acc) (reads (acc * 10 + (code c - 48))), (omega arith, omega arith, digits))
  where
    carried : (acc : ℕ) → suc acc * 10 + (48 - 48) ≡ suc (acc * 10 + (code c - 48))
    carried acc = omega arith

Counts-take_carry :
    (c : Char) (s t : String) (d : Dec (code c < 57))
    → 48 ≤ code c
    → code c ≤ 57
    → Counts s (true, t)
    → Counts (String.◌∷◌ c s) (take_carry c t d)
Counts-take_carry c s t (yes h) l u counts = next_digit-Counts c h s t l counts
Counts-take_carry c s t (no h) l u counts = nine-Counts c s t (omega arith) counts

Counts-carry_over :
    (c : Char) (s : String) (n : Numeral)
    → 48 ≤ code c
    → code c ≤ 57
    → Counts s n
    → Counts (String.◌∷◌ c s) (carry_over c n)
unfolding carry_over
Counts-carry_over c s (false, t) l u (reads, digits) =
    (unfold read in λ acc. reads (acc * 10 + (code c - 48)), (l, u, digits))
Counts-carry_over c s (true, t) l u counts = Counts-take_carry c s t (dec_lt (code c) 57) l u counts

increment-Counts : (s : String) → Digits s → Counts s (increment s)
unfolding increment
increment-Counts String.[] digits = (unfold read in λ acc. refl, tt)
increment-Counts (String.◌∷◌ c s) (l, u, digits) =
    Counts-carry_over c s (increment s) l u (increment-Counts s digits)

-- The digits of a number, and that they stand for it.
abbrev Writes : ℕ → String → Type 0
Writes n s = (read 0 s ≡ n) × Digits s

Writes-finish : (s : String) (n : Numeral) → Counts s n → Writes (suc (read 0 s)) (finish n)
Writes-finish s (true, t) (reads, digits) =
    (unfold read in reads 0, (omega arith, omega arith, digits))
Writes-finish s (false, t) (reads, digits) = (reads 0, digits)

Writes-decimal : (n : ℕ) → Writes n (decimal n)
unfolding decimal
Writes-decimal zero = (unfold read in refl, (omega arith, omega arith, tt))
Writes-decimal (suc n) =
    let (reads, digits) = Writes-decimal n in
    subst (λ k. Writes (suc k) (decimal (suc n))) reads
      (Writes-finish (decimal n) (increment (decimal n)) (increment-Counts (decimal n) digits))

-- Different numbers have different texts.
pub decimal-injective : (m n : ℕ) → decimal m ≡ decimal n → m ≡ n
decimal-injective m n h = sym (Writes-decimal m).0 ∙ ap (λ s. read 0 s) h ∙ (Writes-decimal n).0
