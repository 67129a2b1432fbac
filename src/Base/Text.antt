-- ===== src/Base/Text.antt =====
-- Python's `str` as the native `String`, walked character by character.
pub mod Split
pub mod Last
use Prim.Native.Nat.{ℕ, zero, suc, ◌-◌, ◌+◌, ◌<◌, compare, Ordering}
use Prim.Native.Char.{Char, char, code}
use Prim.Native.String.{String, count, ◌++◌ as ◌<>◌}
use mathlib.Core.Bool.{Bool, true, false, ◌&&◌, ◌||◌}
use mathlib.Core.List.{List, [], ◌∷◌}
use mathlib.Core.Path.{◌≡◌, refl}
use native.Mathlib.Omega.{arith}
use mathlib.Core.Logic.{dite}
use mathlib.Core.Option.{Option, none, some}
use native.Mathlib.Decide.{dec_lt}
use text.Mathlib.Text.{◌==◌}
use test_minio.Base.Tests.{◌=ℕ=◌, leb, if◌then◌else◌}

pub ascii-lt-surrogates : (n : ℕ) → n < 128 → compare n 55296 ≡ Ordering.lt
ascii-lt-surrogates n h = ground arith

-- chr(n) below 128
unfoldable pub chr : (n : ℕ) → n < 128 → Char
chr n h = char n (rw (ascii-lt-surrogates n h) tt)

pub code-chr : (n : ℕ) (h : n < 128) → code (chr n h) ≡ n
unfolding chr
code-chr n h = refl

unfoldable pub begins_with : String → String → Bool
begins_with s String.[] = true
begins_with String.[] (String.◌∷◌ d t) = false
begins_with (String.◌∷◌ c s) (String.◌∷◌ d t) = code c =ℕ= code d && begins_with s t

-- `sub in s`
unfoldable pub contains : String → String → Bool
contains sub String.[] = begins_with String.[] sub
contains sub (String.◌∷◌ c s) = begins_with (String.◌∷◌ c s) sub || contains sub s

abbrev pub char_text : Char → String
char_text c = String.◌∷◌ c String.[]

-- The pieces of a text between the occurrences of `sep`, found from the left: `skip` characters of
-- an occurrence are still to be passed over, and `piece` is what has been read of this piece.
pub split_loop : String → ℕ → String → String → List String
split_loop sep skip piece String.[] = piece ∷ []
split_loop sep (suc skip) piece (String.◌∷◌ c s) = split_loop sep skip piece s
split_loop sep zero piece (String.◌∷◌ c s) = elim (begins_with (String.◌∷◌ c s) sep) [
  | true ↦ piece ∷ split_loop sep (count sep - 1) String.[] s
  | false ↦ split_loop sep zero (piece <> char_text c) s
]

-- s.split(sep), for a `sep` that is not empty
unfoldable pub split : String → String → List String
unfolding split_loop begins_with
split s sep = split_loop sep 0 String.[] s

-- `c in s` for one character
unfoldable pub has_char : ℕ → String → Bool
has_char d String.[] = false
has_char d (String.◌∷◌ c s) = code c =ℕ= d || has_char d s

-- s.rsplit(c, 1) for one character: the parts around its last occurrence
unfoldable pub rsplit : ℕ → String → Option (String × String)
rsplit d String.[] = none
rsplit d (String.◌∷◌ c s) = elim (rsplit d s) [
  | some (a, b) ↦ some (String.◌∷◌ c a, b)
  | none ↦ if code c =ℕ= d then some ("", s) else none
]

-- s.endswith(t)
unfoldable pub ends_with : String → String → Bool
ends_with String.[] t = t == ""
ends_with (String.◌∷◌ c s) t = String.◌∷◌ c s == t || ends_with s t

pub letter-lt : (c : Char) → code c < 91 → code c + 32 < 128
letter-lt c h = omega arith

abbrev pub lower_letter : (c : Char) → code c < 91 → Char
lower_letter c h = chr (code c + 32) (letter-lt c h)

-- s.lower() on ASCII letters; others are kept
unfoldable pub lower_char : Char → Char
lower_char c =
    dite (dec_lt 64 (code c)) (λ _. dite (dec_lt (code c) 91) (λ h. lower_letter c h) (λ _. c))
      (λ _. c)

unfoldable pub lower : String → String
unfolding lower_char dec_lt
lower String.[] = String.[]
lower (String.◌∷◌ c s) = String.◌∷◌ (lower_char c) (lower s)

-- s.replace(c, t) for one character
unfoldable pub replace_char : ℕ → String → String → String
replace_char d t String.[] = String.[]
replace_char d t (String.◌∷◌ c s) = (if code c =ℕ= d then t else char_text c) <> replace_char d t s

-- s[n:]
unfoldable pub from_index : ℕ → String → String
from_index zero s = s
from_index (suc n) String.[] = String.[]
from_index (suc n) (String.◌∷◌ c s) = from_index n s

-- str.isspace() of one character
unfoldable pub is_space : ℕ → Bool
is_space c =
    (leb 9 c && leb c 13)
    || (leb 28 c && leb c 32)
    || c =ℕ= 0x85
    || c =ℕ= 0xa0
    || c =ℕ= 0x1680
    || (leb 0x2000 c && leb c 0x200a)
    || c =ℕ= 0x2028
    || c =ℕ= 0x2029
    || c =ℕ= 0x202f
    || c =ℕ= 0x205f
    || c =ℕ= 0x3000

-- s.rstrip()
unfoldable pub rstrip : String → String
unfolding is_space
rstrip String.[] = String.[]
rstrip (String.◌∷◌ c s) =
    let rest = rstrip s in if rest == "" && is_space (code c) then "" else String.◌∷◌ c rest

-- s.strip()
unfoldable pub strip : String → String
unfolding rstrip is_space
strip String.[] = String.[]
strip (String.◌∷◌ c s) = if is_space (code c) then strip s else rstrip (String.◌∷◌ c s)

abbrev pub before_cut : Char → Option (String × String) → Option (String × String)
before_cut c none = none
before_cut c (some (a, b)) = some (String.◌∷◌ c a, b)

-- s.split(c, 1) for one character: the parts around its first occurrence
unfoldable pub cut : ℕ → String → Option (String × String)
cut d String.[] = none
cut d (String.◌∷◌ c s) = if code c =ℕ= d then some ("", s) else before_cut c (cut d s)
