-- ===== src/Base/Text/Last.antt =====
-- `rsplit` cuts a text at the last occurrence of a character.
use Prim.Native.Char.{Char, code}
use Prim.Native.String.{String, ◌++◌ as ◌<>◌}
use Prim.Native.Nat.{ℕ}
use mathlib.Core.Bool.{true, false}
use mathlib.Core.Option.{none, some}
use mathlib.Core.Path.{◌≡◌, refl, ap, sym, ◌∙◌}
use mathlib.Core.Logic.{inl, inr}
use native.Mathlib.Omega.{arith}
use text.Mathlib.TextEquality.{Char-path}
use text.Mathlib.TextLemmas.{nil-append, cons-append}
use test_minio.Base.Tests.{Bool-cases}
use test_minio.Base.Text.{has_char, rsplit}
use test_minio.Base.Text.Split.{Lacks}

pub has_char-Lacks : (d : ℕ) (s : String) → has_char d s ≡ false → Lacks d s
unfolding has_char
has_char-Lacks d String.[] h = tt
has_char-Lacks d (String.◌∷◌ c s) h =
    (λ e. absurd (ground arith), has_char-Lacks d s (ground arith))

pub Lacks-has_char : (d : ℕ) (s : String) → Lacks d s → has_char d s ≡ false
unfolding has_char
Lacks-has_char d String.[] h = refl
Lacks-has_char d (String.◌∷◌ c s) h = let e = Lacks-has_char d s h.1 in let ne = h.0 in ground arith

pub has_char-append : (d : ℕ) (s t : String) → has_char d t ≡ true → has_char d (s <> t) ≡ true
unfolding has_char
has_char-append d String.[] t h = rw nil-append h
has_char-append d (String.◌∷◌ c s) t h = rw cons-append (ground (arith, has_char-append d s t h))

pub rsplit-Lacks : (d : ℕ) (s : String) → Lacks d s → rsplit d s ≡ none
unfolding rsplit
rsplit-Lacks d String.[] h = refl
rsplit-Lacks d (String.◌∷◌ c s) h =
    let e = rsplit-Lacks d s h.1 in let ne = h.0 in rw e (ground arith)

rsplit-cons_some :
    (x c : Char) (s a b : String)
    → rsplit (code x) s ≡ some (a, b)
    → rsplit (code x) (String.◌∷◌ c s) ≡ some (String.◌∷◌ c a, b)
unfolding rsplit
rsplit-cons_some x c s a b h = rw h refl

pub rsplit-append :
    (x : Char) (a b : String)
    → Lacks (code x) b
    → rsplit (code x) (a <> String.◌∷◌ x b) ≡ some (a, b)
unfolding rsplit
rsplit-append x String.[] b h = rw nil-append rw (rsplit-Lacks (code x) b h) (ground arith)
rsplit-append x (String.◌∷◌ c a) b h =
    rw cons-append (rsplit-cons_some x c (a <> String.◌∷◌ x b) a b (rsplit-append x a b h))

rsplit-cons_none :
    (x c : Char) (s : String)
    → Lacks (code x) s
    → c ≡ x
    → rsplit (code x) (String.◌∷◌ c s) ≡ some ("", s)
unfolding rsplit
rsplit-cons_none x c s h same =
    rw (rsplit-Lacks (code x) s h) (let q = ap code same in ground arith)

-- the two parts of a text that has the character
abbrev pub Parts : Char → String → Type 0
Parts x s =
    (a : String) × (b : String) × (rsplit (code x) s ≡ some (a, b))
    × (a <> String.◌∷◌ x b ≡ s)
    × Lacks (code x) b

pub rsplit-Parts : (x : Char) (s : String) → has_char (code x) s ≡ true → Parts x s
unfolding has_char
rsplit-Parts x String.[] h = absurd (ground arith)
rsplit-Parts x (String.◌∷◌ c s) h = elim (Bool-cases (has_char (code x) s)) [
  | inl y ↦
      let (a, b, cut, spelled, lacks) = rsplit-Parts x s y in
      (
        String.◌∷◌ c a,
        b,
        rsplit-cons_some x c s a b cut,
        rw cons-append (ap (String.◌∷◌ c) spelled),
        lacks,
      )
  | inr n ↦
      let same = Char-path c x (ground arith) in
      (
        "",
        s,
        rsplit-cons_none x c s (has_char-Lacks (code x) s n) same,
        nil-append (String.◌∷◌ x s) ∙ ap (λ d. String.◌∷◌ d s) (sym same),
        has_char-Lacks (code x) s n,
      )
]
