-- ===== src/LegacyKustomizations/Paths/Joins.antt =====
-- Joining relative paths, and the parts of what is joined.
use Prim.Native.Char.{Char, char}
use Prim.Native.String.{count}
use text.Mathlib.TextLemmas.{nil-append, cons-append, append-nil, append_assoc, length-cons}
use test_minio.Base.{
  String, ◌<>◌, ◌≡◌, ◌≢◌, refl, ap, ◌∙◌, ◌==◌, eq_iff, false, ◌||◌, List, [], ◌∷◌, ◌++◌, arith, All,
  if◌then◌else◌, Bool-cases, inl, inr,
}
use test_minio.Base.Text.{from_index}
use test_minio.Base.FilePath.{is_absolute, ends_with_slash, path_join, join_all}
use test_minio.Base.Text.Split.{glue}

-- The text of the test directory behind the root.
pub from_index-append : (a b : String) → from_index (count a) (a <> b) ≡ b
unfolding from_index
from_index-append String.[] b = rw nil-append refl
from_index-append (String.◌∷◌ c a) b = rw (cons-append, length-cons) (from_index-append a b)

-- A path that one can go on from with "/".
abbrev pub IsOpen : String → Type 0
IsOpen a = ((a == "") ≡ false) × (ends_with_slash a ≡ false)

cons_ne_nil : (c : Char) (s : String) → String.◌∷◌ c s ≢ ""
cons_ne_nil c s h = omega (arith, rw length-cons at (ap count h))

cons_ne : (c : Char) (s : String) → (String.◌∷◌ c s == "") ≡ false
cons_ne c s = ground (arith, eq_iff (String.◌∷◌ c s) "", cons_ne_nil c s)

ends_with_slash-append :
    (a : String) (c : Char) (t : String)
    → ends_with_slash (a <> String.◌∷◌ c t) ≡ ends_with_slash (String.◌∷◌ c t)
unfolding ends_with_slash
ends_with_slash-append String.[] c t = rw nil-append refl
ends_with_slash-append (String.◌∷◌ x String.[]) c t = rw (cons-append, nil-append) refl
ends_with_slash-append (String.◌∷◌ x (String.◌∷◌ y a)) c t =
    rw (cons-append, cons-append) (rw cons-append at (ends_with_slash-append (String.◌∷◌ y a) c t))

pub path_join_open :
    (a b : String) → IsOpen a → is_absolute b ≡ false → path_join a b ≡ a <> ("/" <> b)
unfolding path_join
path_join_open a b (ne, open_) rel = ground arith

append_ne : (a : String) (c : Char) (t : String) → (a <> String.◌∷◌ c t == "") ≡ false
append_ne String.[] c t = rw nil-append (cons_ne c t)
append_ne (String.◌∷◌ x a) c t = rw cons-append (cons_ne x (a <> String.◌∷◌ c t))

abbrev slash : Char
slash = char b'/' tt

slash_cons : (t : String) → "/" <> t ≡ String.◌∷◌ slash t
slash_cons t = cons-append slash "" t ∙ rw nil-append refl

-- A part of a relative path that one can go on from.
abbrev pub IsPart : String → Type 0
IsPart s = IsOpen s × (is_absolute s ≡ false)

-- Behind a "/", a path is as open as it is by itself.
ends_with_slash-behind :
    (a t : String) → ends_with_slash (a <> ("/" <> t)) ≡ (t == "" || ends_with_slash t)
ends_with_slash-behind a String.[] =
    ends_with_slash-append a slash "" ∙ unfold ends_with_slash in refl
ends_with_slash-behind a (String.◌∷◌ c t) =
    rw (slash_cons (String.◌∷◌ c t), cons_ne)
      (ends_with_slash-append a slash (String.◌∷◌ c t) ∙ unfold ends_with_slash in refl)

behind_ne : (a t : String) → (a <> ("/" <> t) == "") ≡ false
behind_ne a t = rw slash_cons (append_ne a slash t)

pub IsOpen-behind : (a t : String) → IsOpen t → IsOpen (a <> ("/" <> t))
IsOpen-behind a t (ne, open_) = (behind_ne a t, rw (ends_with_slash-behind, ne) open_)

pub IsOpen-glue :
    (a : String) (ss : List String) → IsOpen a → All IsPart ss → IsOpen (a <> glue "/" ss)
IsOpen-glue a [] ha hs = rw append-nil ha
IsOpen-glue a (s ∷ ss) ha (hs, hss) =
    rw (append_assoc, append_assoc) at
      (IsOpen-glue (a <> ("/" <> s)) ss (IsOpen-behind a s hs.0) hss)

pub join_all-glue :
    (a : String) (ss rest : List String)
    → IsOpen a
    → All IsPart ss
    → join_all a (ss ++ rest) ≡ join_all (a <> glue "/" ss) rest
unfolding join_all
join_all-glue a [] rest ha hs = rw append-nil refl
join_all-glue a (s ∷ ss) rest ha (hs, hss) =
    ap (λ p. join_all p (ss ++ rest)) (path_join_open a s ha hs.1)
    ∙ (rw (append_assoc, append_assoc) at
        (join_all-glue (a <> ("/" <> s)) ss rest (IsOpen-behind a s hs.0) hss))

-- How a text goes on behind a path that ends in `s`.
path_join_cases :
    (s t : String)
    → is_absolute t ≡ false
    → path_join s t ≡ (if s == "" || ends_with_slash s then s <> t else s <> ("/" <> t))
unfolding path_join
path_join_cases s t h = ground arith

pub path_join_behind :
    (a s t : String)
    → IsOpen a
    → is_absolute s ≡ false
    → is_absolute t ≡ false
    → path_join (path_join a s) t ≡ a <> ("/" <> path_join s t)
path_join_behind a s t ha hs ht =
    rw
      (
        path_join_open a s ha hs,
        path_join_cases s t ht,
        path_join_cases (a <> ("/" <> s)) t ht,
        behind_ne a s,
        ends_with_slash-behind a s,
      )
      (elim (Bool-cases (s == "" || ends_with_slash s)) [
        | inl e ↦ rw (e, append_assoc, append_assoc) refl
        | inr e ↦ rw (e, append_assoc, append_assoc) refl
      ])
