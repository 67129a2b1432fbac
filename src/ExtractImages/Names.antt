-- ===== src/ExtractImages/Names.antt =====
-- The names of the entries of the list of images.
use test_minio.Base.{
  IsUnique, String, ◌≡◌, refl, sym, ◌∙◌, ap, subst, false, some, List, [], ◌∷◌, ◌++◌, ok,
  ok_of_bind, ok-injective, inl, inr, arith, ◌==◌, if◌then◌else◌, Bool-cases, elem,
}
use mathlib.Core.List.{append-nil, append_assoc}
use test_minio.Base.Value.{Value, dict, str, find, is_text}
use test_minio.ExtractImages.Reference.{Image}
use test_minio.ExtractImages.Images.{append_or_update, update, kust_img}
use test_minio.ExtractImages.Images.Listed.{append_same, append_other_ok}
use test_minio.ExtractImages.Images.Listed.Entry.{find-update_name, kust_img-name}
use test_minio.ExtractImages.{File, scan_files}
use test_minio.ExtractImages.Scan.{append_all, scan_files-Adds}

-- The entries have these names, in order.
abbrev pub HasNames : List Value → List String → Type 0
HasNames [] [] = Unit
HasNames (dict d ∷ l) (name ∷ names) = (find "name" d ≡ some (str name)) × HasNames l names
HasNames _ _ = ⊥

add_name : String → List String → List String
add_name new [] = new ∷ []
add_name new (name ∷ names) = if name == new then name ∷ names else name ∷ add_name new names

elem-add_name :
    (m new : String) (names : List String)
    → elem m names ≡ false
    → m == new ≡ false
    → elem m (add_name new names) ≡ false
unfolding add_name elem
elem-add_name m new [] h n = rw n refl
elem-add_name m new (name ∷ names) h n = elim (Bool-cases (name == new)) [
  | inl y ↦ rw y h
  | inr k ↦ rw k (ground (arith, elem-add_name m new names (ground arith) n))
]

add_name-IsUnique :
    (new : String) (names : List String) → IsUnique names → IsUnique (add_name new names)
unfolding add_name elem
add_name-IsUnique new [] h = (refl, tt)
add_name-IsUnique new (name ∷ names) h = elim (Bool-cases (name == new)) [
  | inl y ↦ rw y h
  | inr n ↦ rw n (elem-add_name name new names h.0 n, add_name-IsUnique new names h.1)
]

add_name-append :
    (new : String) (names : List String)
    → (more : List String) × (add_name new names ≡ names ++ more)
unfolding add_name
add_name-append new [] = (new ∷ [], refl)
add_name-append new (name ∷ names) = elim (Bool-cases (name == new)) [
  | inl y ↦ ([], rw y (ap (name ∷◌) (sym (append-nil names))))
  | inr n ↦ let (more, e) = add_name-append new names in (more, rw n (ap (name ∷◌) e))
]

append_or_update-HasNames :
    (new : Image) (l l' : List Value) (names : List String)
    → HasNames l names
    → append_or_update l new ≡ ok l'
    → HasNames l' (add_name new.name names)
unfolding add_name append_or_update
append_or_update-HasNames new [] l' [] h e =
    subst (λ x. HasNames x (new.name ∷ [])) (ok-injective (dict (kust_img new) ∷ []) l' e)
      (kust_img-name new, tt)
append_or_update-HasNames new [] l' (name ∷ names) h e = absurd h
append_or_update-HasNames new (dict d ∷ l) l' [] h e = absurd h
append_or_update-HasNames new (dict d ∷ l) l' (name ∷ names) h e =
    elim (Bool-cases (name == new.name)) [
      | inl y ↦ rw y (
          subst (λ x. HasNames x (name ∷ names))
            (ok-injective (dict (update d new) ∷ l) l'
              (sym (append_same new d l (str name) h.0 (unfold is_text in y)) ∙ e))
            (find-update_name new d ∙ h.0, h.1))
      | inr n ↦
          let (rest, g, k) = append_other_ok new d l l' (str name) h.0 (unfold is_text in n) e in
          rw n (
            subst (λ x. HasNames x (name ∷ add_name new.name names)) k
              (h.0, append_or_update-HasNames new l rest names h.1 g))
    ]
append_or_update-HasNames new (_ ∷ l) l' [] h e = absurd h
append_or_update-HasNames new (_ ∷ l) l' (name ∷ names) h e = absurd h

-- what a sequence of images makes of the names
abbrev Grown : List Value → List String → Type 0
Grown l names =
    (more : List String) × HasNames l (names ++ more) × (IsUnique names → IsUnique (names ++ more))

append_all-Grown :
    (images : List Image) (l l' : List Value) (names : List String)
    → HasNames l names
    → append_all l images ≡ ok l'
    → Grown l' names
append_all-Grown [] l l' names h e = (
  [],
  rw append-nil (subst (λ x. HasNames x names) (ok-injective l l' e) h),
  rw append-nil (λ u. u),
)
append_all-Grown (new ∷ images) l l' names h e =
    let (m, f, g) = ok_of_bind (append_or_update l new) (λ rest. append_all rest images) l' e in
    let (one, p) = add_name-append new.name names in
    let (more, q, u) =
      append_all-Grown images m l' (add_name new.name names)
        (append_or_update-HasNames new l m names h f) g in
    (
      one ++ more,
      rw (sym (append_assoc names one more), sym p) q,
      λ v. rw (sym (append_assoc names one more), sym p) (u (add_name-IsUnique new.name names v)),
    )

-- A scan that returns keeps the names and places of the entries that were there, puts new ones at
-- the end, and brings no name in twice.
pub scan_files-HasNames :
    (files : List File) (l l' : List Value) (names : List String)
    → HasNames l names
    → scan_files l files ≡ ok l'
    → (more : List String) × HasNames l' (names ++ more)
      × (IsUnique names → IsUnique (names ++ more))
scan_files-HasNames files l l' names h e =
    let (images, f) = scan_files-Adds files l l' e in
    append_all-Grown images l l' names h (sym (f l) ∙ e)
