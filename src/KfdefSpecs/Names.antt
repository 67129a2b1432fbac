-- ===== src/KfdefSpecs/Names.antt =====
-- The name that a file of kustomize is written under.
use Prim.Native.Char.{Char, char, code}
use text.Mathlib.TextLemmas.{nil-append, cons-append, append_assoc}
use test_minio.Base.{
  String, ◌<>◌, ◌==◌, ◌=ℕ=◌, ◌≡◌, refl, ap, ◌∙◌, false, some, Bool-cases, inl, inr, arith,
  if◌then◌else◌,
}
use test_minio.Base.Text.{rsplit, replace_char, char_text}
use test_minio.Base.Text.Split.{Lacks}
use test_minio.Base.FilePath.{splitext, only_dots, is_absolute}
use test_minio.LegacyKustomizations.Paths.Joins.{from_index-append}
use test_minio.KfdefSpecs.{resource_prefix, extension, new_name}

-- "-" becomes "_".
abbrev pub underscored : String → String
underscored = replace_char b'-' "_"

-- What follows the name: nothing but the extension for master, and the version before it otherwise.
abbrev pub suffix : String → String
suffix version = if version == "master" then ".yaml" else "." <> (underscored version <> ".yaml")

replace_char-append : (s t : String) → underscored (s <> t) ≡ underscored s <> underscored t
unfolding replace_char
replace_char-append String.[] t = rw (nil-append, nil-append) refl
replace_char-append (String.◌∷◌ c s) t = rw cons-append (
    ap (λ u. (if code c =ℕ= b'-' then "_" else char_text c) <> u) (replace_char-append s t)
    ∙ rw append_assoc refl)

rsplit-yaml : (s : String) → rsplit b'.' (s <> ".yaml") ≡ some (s, "yaml")
unfolding rsplit
rsplit-yaml String.[] = refl
rsplit-yaml (String.◌∷◌ c s) = rw cons-append (rw (rsplit-yaml s, rsplit) refl)

splitext-yaml : (s : String) → only_dots s ≡ false → splitext (s <> ".yaml") ≡ (s, ".yaml")
unfolding splitext
splitext-yaml s h = rw (rsplit-yaml s, splitext) (rw (h, splitext) refl)

underscored-extension : (version : String) → underscored (extension version) ≡ suffix version
unfolding extension
underscored-extension version = elim (Bool-cases (version == "master")) [
  | inl e ↦ rw e (unfold replace_char in refl)
  | inr e ↦ rw e (
      replace_char-append "." (version <> ".yaml")
      ∙ ap (λ u. underscored "." <> u) (replace_char-append version ".yaml")
      ∙ unfold replace_char in refl)
]

pub new_name_lem :
    (version stem : String)
    → only_dots stem ≡ false
    → new_name version (resource_prefix <> (stem <> ".yaml")) ≡ underscored stem <> suffix version
unfolding new_name
new_name_lem version stem h =
    rw (from_index-append resource_prefix (stem <> ".yaml"), splitext-yaml stem h)
      (replace_char-append stem (extension version) ∙ rw underscored-extension refl)

first_char : (c : Char) (s t : String) → is_absolute ((char_text c <> s) <> t) ≡ (code c =ℕ= b'/')
first_char c s t = rw (cons-append, cons-append) refl

pub name-relative :
    (stem t : String)
    → Lacks b'/' stem
    → only_dots stem ≡ false
    → is_absolute (underscored stem <> t) ≡ false
unfolding only_dots replace_char
name-relative String.[] t lacks h = absurd (ground arith)
name-relative (String.◌∷◌ c s) t lacks h = elim (Bool-cases (code c =ℕ= b'-')) [
  | inl e ↦ rw e (first_char (char b'_' tt) (underscored s) t)
  | inr e ↦ rw e (first_char c (underscored s) t ∙ ground arith)
]
