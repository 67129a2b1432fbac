-- ===== src/Base/Text/Split.antt =====
-- Splitting undoes joining.
use Prim.Native.Nat.{ℕ, ◌-◌}
use Prim.Native.Char.{Char, code}
use Prim.Native.String.{String, count, ◌++◌ as ◌<>◌}
use mathlib.Core.Bool.{true, false}
use mathlib.Core.List.{List, [], ◌∷◌, ◌++◌}
use mathlib.Core.Path.{◌≡◌, refl, ap, ◌∙◌}
use mathlib.Core.Logic.{◌≢◌, inl, inr}
use native.Mathlib.Omega.{arith}
use text.Mathlib.TextLemmas.{nil-append, cons-append, append-nil, append_assoc, length-cons}
use test_minio.Base.Tests.{All, Bool-cases, ◌=ℕ=◌}
use test_minio.Base.Text.{begins_with, contains, split_loop, split, char_text}

-- The code does not occur in the text.
abbrev pub Lacks : ℕ → String → Type 0
Lacks d String.[] = Unit
Lacks d (String.◌∷◌ c s) = (code c ≢ d) × Lacks d s

pub Lacks-append : (d : ℕ) (s t : String) → Lacks d s → Lacks d t → Lacks d (s <> t)
Lacks-append d String.[] t hs ht = rw nil-append ht
Lacks-append d (String.◌∷◌ c s) t hs ht = rw cons-append (hs.0, Lacks-append d s t hs.1 ht)

-- the text of the pieces, each behind a separator
abbrev pub glue : String → List String → String
glue sep [] = ""
glue sep (p ∷ ps) = sep <> (p <> glue sep ps)

-- sep.join(pieces)
abbrev pub join : String → List String → String
join sep [] = ""
join sep (p ∷ ps) = p <> glue sep ps

pub begins_with-append : (s t : String) → begins_with (s <> t) s ≡ true
unfolding begins_with
begins_with-append String.[] t = refl
begins_with-append (String.◌∷◌ c s) t = rw cons-append (ground (arith, begins_with-append s t))

module _ (d : Char) (sep : String) where
  abbrev full : String
  full = String.◌∷◌ d sep

  begins_with_ne :
      (c : Char) (s : String) → code c ≢ code d → begins_with (String.◌∷◌ c s) full ≡ false
  unfolding begins_with
  begins_with_ne c s h = ground arith

  split_loop_ne :
      (c : Char) (s piece : String)
      → code c ≢ code d
      → split_loop full 0 piece (String.◌∷◌ c s) ≡ split_loop full 0 (piece <> char_text c) s
  split_loop_ne c s piece h = unfold split_loop in rw (begins_with_ne c s h, split_loop)

  split_loop-piece :
      (p rest piece : String)
      → Lacks (code d) p
      → split_loop full 0 piece (p <> rest) ≡ split_loop full 0 (piece <> p) rest
  split_loop-piece String.[] rest piece h = rw (nil-append, append-nil)
  split_loop-piece (String.◌∷◌ c p) rest piece h =
      rw cons-append (split_loop_ne c (p <> rest) piece h.0)
      ∙ split_loop-piece p rest (piece <> char_text c) h.1
      ∙ rw (append_assoc, cons-append, nil-append)

  split_loop-skip :
      (t rest piece : String)
      → split_loop full (count t) piece (t <> rest) ≡ split_loop full 0 piece rest
  unfolding split_loop
  split_loop-skip String.[] rest piece = rw nil-append
  split_loop-skip (String.◌∷◌ c t) rest piece =
      rw (cons-append, length-cons) (split_loop-skip t rest piece)

  count-full : count full - 1 ≡ count sep
  count-full = rw length-cons (omega arith)

  begins_with-full : (rest : String) → begins_with (String.◌∷◌ d (sep <> rest)) full ≡ true
  begins_with-full rest = rw cons-append at (begins_with-append full rest)

  split_loop-sep :
      (rest piece : String)
      → split_loop full 0 piece (full <> rest) ≡ piece ∷ split_loop full 0 "" rest
  split_loop-sep rest piece = rw cons-append (
      unfold split_loop in
      rw (begins_with-full rest, split_loop)
        (rw count-full (ap (λ ps. piece ∷ ps) (split_loop-skip sep rest ""))))

  split_loop-glue :
      (p piece : String) (ps : List String)
      → Lacks (code d) p
      → All (Lacks (code d)) ps
      → split_loop full 0 piece (p <> glue full ps) ≡ (piece <> p) ∷ ps
  split_loop-glue p piece [] h hs = split_loop-piece p "" piece h ∙ unfold split_loop in refl
  split_loop-glue p piece (q ∷ ps) h hs =
      split_loop-piece p (glue full (q ∷ ps)) piece h
      ∙ split_loop-sep (q <> glue full ps) (piece <> p)
      ∙ ap (λ qs. (piece <> p) ∷ qs) (split_loop-glue q "" ps hs.0 hs.1 ∙ rw nil-append)

  -- Splitting the pieces that a separator joins gives them back, where none holds the first
  -- character of the separator.
  pub split-join :
      (p : String) (ps : List String)
      → Lacks (code d) p
      → All (Lacks (code d)) ps
      → split (join full (p ∷ ps)) full ≡ p ∷ ps
  unfolding split
  split-join p ps h hs = split_loop-glue p "" ps h hs ∙ rw nil-append

  -- A text with the separator in it contains it.
  pub contains-append : (p rest : String) → contains full (p <> (full <> rest)) ≡ true
  unfolding contains
  contains-append String.[] rest = rw (nil-append, cons-append) (rw begins_with-full)
  contains-append (String.◌∷◌ c p) rest = rw cons-append (ground (arith, contains-append p rest))

  -- A text without the separator's first character does not.
  pub contains-Lacks : (s : String) → Lacks (code d) s → contains full s ≡ false
  unfolding contains
  contains-Lacks String.[] h = unfold begins_with in refl
  contains-Lacks (String.◌∷◌ c s) h = rw (begins_with_ne c s h.0) (contains-Lacks s h.1)

-- Splitting at one character takes a text apart at each place where it stands.
module _ (d : Char) where
  abbrev one : String
  one = char_text d

  count-one : count one - 1 ≡ 0
  count-one = rw length-cons (omega arith)

  begins_with-one :
      (c : Char) (s : String) → code c ≡ code d → begins_with (String.◌∷◌ c s) one ≡ true
  unfolding begins_with
  begins_with-one c s e = ground arith

  split_loop-one :
      (c : Char) (s piece : String)
      → code c ≡ code d
      → split_loop one 0 piece (String.◌∷◌ c s) ≡ piece ∷ split_loop one 0 "" s
  split_loop-one c s piece h =
      unfold split_loop in rw (begins_with-one c s h, split_loop, count-one) refl

  split_loop_end : (piece : String) → split_loop one 0 piece "" ≡ piece ∷ []
  unfolding split_loop
  split_loop_end piece = refl

  split_loop-append :
      (s rest piece : String)
      → split_loop one 0 piece (s <> (one <> rest))
        ≡ split_loop one 0 piece s ++ split_loop one 0 "" rest
  split_loop-append String.[] rest piece =
      rw (nil-append, split_loop_end piece) (split_loop-sep d "" rest piece)
  split_loop-append (String.◌∷◌ c s) rest piece = elim (Bool-cases (code c =ℕ= code d)) [
    | inl e ↦ rw cons-append (
        rw
          (
            split_loop-one c s piece (ground arith),
            split_loop-one c (s <> (one <> rest)) piece (ground arith),
          )
          (ap (λ ps. piece ∷ ps) (split_loop-append s rest "")))
    | inr ne ↦ rw cons-append (
        rw
          (
            split_loop_ne d "" c s piece (ground arith),
            split_loop_ne d "" c (s <> (one <> rest)) piece (ground arith),
          )
          (split_loop-append s rest (piece <> char_text c)))
  ]

  pub split-append :
      (s rest : String) → split (s <> (one <> rest)) one ≡ split s one ++ split rest one
  unfolding split
  split-append s rest = split_loop-append s rest ""

  pub split_lacking : (p : String) → Lacks (code d) p → split p one ≡ p ∷ []
  split_lacking p h = rw append-nil at (split-join d "" p [] h tt)

  pub split-piece :
      (p rest : String) → Lacks (code d) p → split (p <> (one <> rest)) one ≡ p ∷ split rest one
  split-piece p rest h = split-append p rest ∙ ap (λ ps. ps ++ split rest one) (split_lacking p h)
