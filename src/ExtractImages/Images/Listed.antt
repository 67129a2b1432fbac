-- ===== src/ExtractImages/Images/Listed.antt =====
-- One image: what `append_or_update` settles stays settled.
pub mod Entry
use test_minio.Base.{
  ok-injective, subst, key_error, String, ◌≡◌, refl, sym, ◌∙◌, ap, ◌≢◌, Bool, true, false, Option,
  none, some, List, [], ◌∷◌, Result, ok, err, ok_of_bind, ◌⊎◌, inl, inr, arith, ◌==◌, eq_iff,
  eq_refl, if◌then◌else◌, ◌>>=◌, Option-cases, Bool-cases,
}
use test_minio.Base.Value.{Value, Fields, str, dict, field, end, find, is_text}
use test_minio.ExtractImages.Reference.{Image}
use test_minio.ExtractImages.Images.{append_or_update, update, kust_img}
use Entry.{
  Settled, update-Settled, update_already, Settled-update, find-update_name, kust_img-Settled,
  kust_img-name,
}

is_text_same : (s : String) → is_text s (str s) ≡ true
unfolding is_text
is_text_same s = eq_refl s

-- The first entry with the image's name is there and leaves nothing to set.
pub data IsListed (new : Image) : List Value → Type 0 where
  first :
      (img : Fields) (l : List Value) (name : Value)
      → find "name" img ≡ some name
      → is_text new.name name ≡ true
      → Settled new img
      → IsListed new (dict img ∷ l)
  later :
      (img : Fields) (l : List Value) (name : Value)
      → find "name" img ≡ some name
      → is_text new.name name ≡ false
      → IsListed new l
      → IsListed new (dict img ∷ l)

module _ (new : Image) (img : Fields) (l : List Value) where
  append_nameless : find "name" img ≡ none → append_or_update (dict img ∷ l) new ≡ err key_error
  unfolding append_or_update
  append_nameless e = rw (e, append_or_update) refl

  module _ (name : Value) (e : find "name" img ≡ some name) where
    pub append_same :
        is_text new.name name ≡ true
        → append_or_update (dict img ∷ l) new ≡ ok (dict (update img new) ∷ l)
    unfolding append_or_update
    append_same t = rw (e, append_or_update) (rw t refl)

    append_other :
        is_text new.name name ≡ false
        → append_or_update (dict img ∷ l) new
          ≡ (append_or_update l new >>= λ rest. ok (dict img ∷ rest))
    unfolding append_or_update
    append_other t = rw (e, append_or_update) (rw t refl)

pub append_other_ok :
    (new : Image) (img : Fields) (l l' : List Value) (name : Value)
    → find "name" img ≡ some name
    → is_text new.name name ≡ false
    → append_or_update (dict img ∷ l) new ≡ ok l'
    → (rest : List Value) × (append_or_update l new ≡ ok rest) × (dict img ∷ rest ≡ l')
append_other_ok new img l l' name e n h =
    let (rest, g, k) =
      ok_of_bind (append_or_update l new) (λ rest. ok (dict img ∷ rest)) l'
        (sym (append_other new img l name e n) ∙ h) in
    (rest, g, ok-injective (dict img ∷ rest) l' k)

pub append_or_update_listed :
    (new : Image) (l : List Value) → IsListed new l → append_or_update l new ≡ ok l
append_or_update_listed new _ (first img l name e t s) =
    append_same new img l name e t ∙ ap (λ d. ok (dict d ∷ l)) (update_already new img s)
append_or_update_listed new _ (later img l name e t h) =
    append_other new img l name e t ∙ rw (append_or_update_listed new l h) refl

IsListed-update :
    (new : Image) (img : Fields) (l l' : List Value) (name : Value)
    → find "name" img ≡ some name
    → is_text new.name name ≡ true
    → ok (dict (update img new) ∷ l) ≡ ok l'
    → IsListed new l'
IsListed-update new img l l' name e t h =
    subst (IsListed new) (ok-injective (dict (update img new) ∷ l) l' h)
      (first (update img new) l name (find-update_name new img ∙ e) t (update-Settled new img))

pub append_or_update-IsListed :
    (new : Image) (l l' : List Value) → append_or_update l new ≡ ok l' → IsListed new l'
unfolding append_or_update
append_or_update-IsListed new [] l' h =
    subst (IsListed new) (ok-injective (dict (kust_img new) ∷ []) l' h) (
      first (kust_img new) [] (str new.name) (kust_img-name new) (is_text_same new.name)
        (kust_img-Settled new))
append_or_update-IsListed new (dict img ∷ l) l' h = elim (Option-cases (find "name" img)) [
  | inl n ↦ absurd (ground (arith, sym (append_nameless new img l n) ∙ h))
  | inr (name, e) ↦ elim (Bool-cases (is_text new.name name)) [
    | inl y ↦ IsListed-update new img l l' name e y (sym (append_same new img l name e y) ∙ h)
    | inr n ↦
        let (rest, g, k) = append_other_ok new img l l' name e n h in
        subst (IsListed new) k (later img rest name e n (append_or_update-IsListed new l rest g))
  ]
]
append_or_update-IsListed new (_ ∷ l) l' h = absurd (ground arith)

pub IsListed-append_or_update :
    (old new : Image) (l l' : List Value)
    → IsListed old l
    → append_or_update l new ≡ ok l'
    → IsListed old l'
IsListed-append_or_update old new _ l' (first img l name e t s) h =
    elim (Bool-cases (is_text new.name name)) [
      | inl y ↦
          subst (IsListed old)
            (ok-injective (dict (update img new) ∷ l) l' (sym (append_same new img l name e y) ∙ h))
            (first (update img new) l name (find-update_name new img ∙ e) t
              (Settled-update old new img s))
      | inr n ↦
          let (rest, g, k) = append_other_ok new img l l' name e n h in
          subst (IsListed old) k (first img rest name e t s)
    ]
IsListed-append_or_update old new _ l' (later img l name e t r) h =
    elim (Bool-cases (is_text new.name name)) [
      | inl y ↦
          subst (IsListed old)
            (ok-injective (dict (update img new) ∷ l) l' (sym (append_same new img l name e y) ∙ h))
            (later (update img new) l name (find-update_name new img ∙ e) t r)
      | inr n ↦
          let (rest, g, k) = append_other_ok new img l l' name e n h in
          subst (IsListed old) k
            (later img rest name e t (IsListed-append_or_update old new l rest r g))
    ]
