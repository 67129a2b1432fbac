-- ===== src/ExtractImages/Images/Listed/Entry.antt =====
-- An entry that has what an image would set.
use test_minio.Base.{
  String, ◌≡◌, refl, sym, ◌∙◌, ap, true, false, some, ◌⊎◌, inl, inr, arith, ◌==◌, Option-cases,
  Bool-cases,
}
use mathlib.Core.Option.{some-injective}
use test_minio.Base.Value.{
  Value, Fields, str, field, end, find, put, truthy, find-put, find-put_self,
}
use test_minio.ExtractImages.Reference.{Image}
use test_minio.ExtractImages.Images.{found_or, keep_or_set, update, put_nonempty, kust_img}

abbrev pub Present : String → Fields → Type 0
Present k d = (v : Value) × (find k d ≡ some v)

-- The key is there, or there is nothing to put.
abbrev pub Has : String → String → Fields → Type 0
Has k default d = Present k d ⊎ (truthy (str default) ≡ false)

abbrev pub Settled : Image → Fields → Type 0
Settled new d = Present "newName" d × Has "newTag" new.tag d × Has "digest" new.digest d

find_later :
    (j k : String) (w : Value) (d : Fields) → j == k ≡ false → find k (field j w d) ≡ find k d
unfolding find
find_later j k w d n = rw n refl

found_first :
    (j k : String) (w v : Value) (d : Fields)
    → j == k ≡ true
    → find k (field j w d) ≡ some v
    → v ≡ w
unfolding find
found_first j k w v d y = rw y (λ e. sym (some-injective w v e))

put_found : (k : String) (v : Value) (d : Fields) → find k d ≡ some v → put k v d ≡ d
unfolding find put
put_found k v end h = absurd (ground arith)
put_found k v (field j w d) h = elim (Bool-cases (j == k)) [
  | inl y ↦ rw y (ap (λ x. field j x d) (found_first j k w v d y h))
  | inr n ↦ rw n (ap (field j w) (put_found k v d (sym (find_later j k w d n) ∙ h)))
]

keep_or_set_present :
    (k default : String) (v : Value) (d : Fields) → find k d ≡ some v → keep_or_set k default d ≡ d
unfolding keep_or_set
keep_or_set_present k default v d e = elim (Bool-cases (truthy v)) [
  | inl y ↦ rw (e, y) (put_found k v d e)
  | inr n ↦ rw (e, n) refl
]

keep_or_set_settled :
    (k default : String) (d : Fields) → Has k default d → keep_or_set k default d ≡ d
unfolding keep_or_set
keep_or_set_settled k default d (inl (v, e)) = keep_or_set_present k default v d e
keep_or_set_settled k default d (inr n) = elim (Option-cases (find k d)) [
  | inl e ↦ rw (e, n) refl
  | inr (v, e) ↦ keep_or_set_present k default v d e
]

Present-put : (k j : String) (v : Value) (d : Fields) → Present k d → Present k (put j v d)
Present-put k j v d (w, e) = elim (Bool-cases (j == k)) [
  | inl y ↦ (v, find-put j k v d ∙ rw y refl)
  | inr n ↦ (w, find-put j k v d ∙ rw n e)
]

Has-put :
    (k default j : String) (v : Value) (d : Fields) → Has k default d → Has k default (put j v d)
Has-put k default j v d (inl p) = inl (Present-put k j v d p)
Has-put k default j v d (inr n) = inr n

module _ (P : Fields → Type 0)
    (keeps : (k : String) (v : Value) (d : Fields) → P d → P (put k v d)) where
  -- What a put keeps, an update keeps.
  keep_or_set_keeps : (k default : String) (d : Fields) → P d → P (keep_or_set k default d)
  unfolding keep_or_set
  keep_or_set_keeps k default d h = elim (Bool-cases (truthy (found_or (str default) (find k d)))) [
    | inl y ↦ rw y (keeps k (found_or (str default) (find k d)) d h)
    | inr n ↦ rw n h
  ]

  put_nonempty_keeps : (k v : String) (d : Fields) → P d → P (put_nonempty k v d)
  put_nonempty_keeps k v d h = elim (Bool-cases (v == "")) [
    | inl y ↦ rw y h
    | inr n ↦ rw n (keeps k (str v) d h)
  ]

put_nonempty-Has : (k v : String) (d : Fields) → Has k v (put_nonempty k v d)
unfolding truthy
put_nonempty-Has k v d = elim (Bool-cases (v == "")) [
  | inl y ↦ inr (rw y refl)
  | inr n ↦ inl (str v, rw n (find-put_self k (str v) d))
]

keep_or_set-Has : (k default : String) (d : Fields) → Has k default (keep_or_set k default d)
unfolding keep_or_set
keep_or_set-Has k default d = elim (Option-cases (find k d)) [
  | inr (v, e) ↦ inl (keep_or_set_keeps (Present k) (Present-put k) k default d (v, e))
  | inl e ↦ elim (Bool-cases (truthy (str default))) [
    | inl y ↦ inl (str default, rw (e, y) (find-put_self k (str default) d))
    | inr n ↦ inr n
  ]
]

Settled-put :
    (new : Image) (k : String) (v : Value) (d : Fields) → Settled new d → Settled new (put k v d)
Settled-put new k v d (p, t, g) = (
  Present-put "newName" k v d p,
  Has-put "newTag" new.tag k v d t,
  Has-put "digest" new.digest k v d g,
)

pub update_keeps :
    (P : Fields → Type 0)
    → ((k : String) (v : Value) (d : Fields) → P d → P (put k v d))
    → (new : Image) (d : Fields) → P d
    → P (update d new)
unfolding update
update_keeps P keeps new d h =
    let named = put "newName" (found_or (str new.name) (find "newName" d)) d in
    keep_or_set_keeps P keeps "digest" new.digest (keep_or_set "newTag" new.tag named) (
      keep_or_set_keeps P keeps "newTag" new.tag named
        (keeps "newName" (found_or (str new.name) (find "newName" d)) d h))

pub Settled-update : (old new : Image) (d : Fields) → Settled old d → Settled old (update d new)
Settled-update old = update_keeps (Settled old) (Settled-put old)

pub update-Settled : (new : Image) (d : Fields) → Settled new (update d new)
unfolding update
update-Settled new d =
    let name = found_or (str new.name) (find "newName" d) in
    let named = put "newName" name d in
    let tagged = keep_or_set "newTag" new.tag named in
    let present = Present-put "newName" in
    let has = Has-put "newTag" new.tag in
    (
      keep_or_set_keeps (Present "newName") present "digest" new.digest tagged (
          keep_or_set_keeps (Present "newName") present "newTag" new.tag named
            (name, find-put_self "newName" name d)),
      keep_or_set_keeps (Has "newTag" new.tag) has "digest" new.digest tagged
          (keep_or_set-Has "newTag" new.tag named),
      keep_or_set-Has "digest" new.digest tagged,
    )

pub update_already : (new : Image) (d : Fields) → Settled new d → update d new ≡ d
unfolding update
update_already new d ((v, e), t, g) =
    rw (e, put_found "newName" v d e)
      (rw (keep_or_set_settled "newTag" new.tag d t) (keep_or_set_settled "digest" new.digest d g))

pub kust_img-name : (new : Image) → find "name" (kust_img new) ≡ some (str new.name)
unfolding kust_img find put
kust_img-name new = elim (Bool-cases (new.tag == "")) [
  | inl y ↦ elim (Bool-cases (new.digest == "")) [ inl z ↦ rw (y, z) refl | inr m ↦ rw (y, m) refl ]
  | inr n ↦ elim (Bool-cases (new.digest == "")) [ inl z ↦ rw (n, z) refl | inr m ↦ rw (n, m) refl ]
]

pub kust_img-Settled : (new : Image) → Settled new (kust_img new)
unfolding kust_img
kust_img-Settled new =
    let start = field "name" (str new.name) (field "newName" (str new.name) end) in
    let tagged = put_nonempty "newTag" new.tag start in
    let present = Present-put "newName" in
    let has = Has-put "newTag" new.tag in
    (
      put_nonempty_keeps (Present "newName") present "digest" new.digest tagged (
          put_nonempty_keeps (Present "newName") present "newTag" new.tag start
            (str new.name, unfold find in refl)),
      put_nonempty_keeps (Has "newTag" new.tag) has "digest" new.digest tagged
          (put_nonempty-Has "newTag" new.tag start),
      put_nonempty-Has "digest" new.digest tagged,
    )

-- Updates leave the name.
keep_or_set-name :
    (k default : String) (d : Fields)
    → k == "name" ≡ false
    → find "name" (keep_or_set k default d) ≡ find "name" d
unfolding keep_or_set
keep_or_set-name k default d n = elim (Bool-cases (truthy (found_or (str default) (find k d)))) [
  | inl y ↦ rw y (find-put k "name" (found_or (str default) (find k d)) d ∙ rw n refl)
  | inr z ↦ rw z refl
]

pub find-update_name : (new : Image) (d : Fields) → find "name" (update d new) ≡ find "name" d
unfolding update
find-update_name new d =
    let named = put "newName" (found_or (str new.name) (find "newName" d)) d in
    keep_or_set-name "digest" new.digest (keep_or_set "newTag" new.tag named) refl
    ∙ keep_or_set-name "newTag" new.tag named refl
    ∙ find-put "newName" "name" (found_or (str new.name) (find "newName" d)) d
