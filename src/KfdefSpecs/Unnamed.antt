-- ===== src/KfdefSpecs/Unnamed.antt =====
-- `del spec["metadata"]["name"]`: nothing else of the document changes.
use test_minio.Base.{
  String, eq_iff, ◌≡◌, refl, ap, sym, ◌∙◌, false, none, some, Option-cases, List, [], ◌∷◌, ok,
  IsUnique, elem, arith, inl, inr, ok-injective, ok_of_bind, if◌then◌else◌, ◌==◌, Bool-cases,
}
use test_minio.Base.Value.{
  null, bool, other, num, str, list, Value, Fields, end, field, dict, find, put, remove, get_item,
  find-put,
}
use test_minio.KfdefSpecs.{delete_key, delete_name}

-- the keys of a dictionary
unfoldable pub field_names : Fields → List String
field_names end = []
field_names (field k v d) = k ∷ field_names d

-- Every mapping of the document that `metadata` leads to has each key once.
abbrev pub HasUniqueMetadata : Value → Type 0
HasUniqueMetadata v = (d : Fields) → get_item v "metadata" ≡ ok (dict d) → IsUnique (field_names d)

find_lacking : (k : String) (d : Fields) → elem k (field_names d) ≡ false → find k d ≡ none
unfolding find field_names elem
find_lacking k end h = refl
find_lacking k (field j v d) h = ground (arith, eq_iff j k, eq_iff k j, find_lacking k d)

find-remove :
    (k : String) (d : Fields)
    → IsUnique (field_names d)
    → (j : String) → find j (remove k d) ≡ (if k == j then none else find j d)
unfolding find remove field_names
find-remove k end h j = elim (Bool-cases (k == j)) [ inl e ↦ rw e refl | inr e ↦ rw e refl ]
find-remove k (field i v d) (fresh, h) j =
    ground (arith, eq_iff i k, eq_iff i j, eq_iff k j, find-remove k d h j, find_lacking i d fresh)

-- The second document is the first one without the name in its metadata: the other keys have what they
-- had.
abbrev pub Unnames : Value → Value → Type 0
Unnames v w =
    (m m' : Fields) × (get_item v "metadata" ≡ ok (dict m))
    × ((k : String) → get_item w k ≡ (if "metadata" == k then ok (dict m') else get_item v k))
    × ((k : String) → find k m' ≡ (if "name" == k then none else find k m))

delete_key-cases :
    (k : String) (v w : Value)
    → delete_key k v ≡ ok w
    → (d : Fields) × (v ≡ dict d) × (w ≡ dict (remove k d))
unfolding delete_key
delete_key-cases k (dict d) w h = elim (Option-cases (find k d)) [
  | inl e ↦ absurd (ground arith)
  | inr (v, e) ↦ (d, refl, sym (ok-injective (dict (remove k d)) w (rw (e, delete_key) at h)))
]
delete_key-cases k null w h = absurd (ground arith)
delete_key-cases k (bool b) w h = absurd (ground arith)
delete_key-cases k (other b) w h = absurd (ground arith)
delete_key-cases k (num n) w h = absurd (ground arith)
delete_key-cases k (str t) w h = absurd (ground arith)
delete_key-cases k (list vs) w h = absurd (ground arith)

delete_name-cases :
    (v w : Value)
    → delete_name v ≡ ok w
    → (spec : Fields) × (m n : Value) × (v ≡ dict spec)
      × (find "metadata" spec ≡ some m)
      × (delete_key "name" m ≡ ok n)
      × (w ≡ dict (put "metadata" n spec))
unfolding delete_name
delete_name-cases (dict spec) w h = elim (Option-cases (find "metadata" spec)) [
  | inl e ↦ absurd (ground arith)
  | inr (m, e) ↦
      let (n, f, g) =
        ok_of_bind (delete_key "name" m) (λ n. ok (dict (put "metadata" n spec))) w
          (rw (e, delete_name) at h) in
      (spec, m, n, refl, e, f, sym (ok-injective (dict (put "metadata" n spec)) w g))
]
delete_name-cases null w h = absurd (ground arith)
delete_name-cases (bool b) w h = absurd (ground arith)
delete_name-cases (other b) w h = absurd (ground arith)
delete_name-cases (num n) w h = absurd (ground arith)
delete_name-cases (str t) w h = absurd (ground arith)
delete_name-cases (list vs) w h = absurd (ground arith)

get_item-metadata :
    (spec : Fields) (m : Value)
    → find "metadata" spec ≡ some m
    → get_item (dict spec) "metadata" ≡ ok m
unfolding get_item
get_item-metadata spec m h = rw (h, get_item) refl

get_item-put :
    (k j : String) (v : Value) (d : Fields)
    → get_item (dict (put k v d)) j ≡ (if k == j then ok v else get_item (dict d) j)
unfolding get_item
get_item-put k j v d = elim (Bool-cases (k == j)) [
  | inl e ↦ rw (find-put k j v d, get_item) (rw (e, get_item) refl)
  | inr e ↦ rw (find-put k j v d, get_item) (rw (e, get_item) refl)
]

pub delete_name-Unnames : (v w : Value) → HasUniqueMetadata v → delete_name v ≡ ok w → Unnames v w
delete_name-Unnames v w unique h =
    let (spec, m, n, at, found, deleted, written) = delete_name-cases v w h in
    let (d, is_dict, removed) = delete_key-cases "name" m n deleted in
    let has : get_item v "metadata" ≡ ok (dict d) =
      ap (λ x. get_item x "metadata") at ∙ get_item-metadata spec m found ∙ ap ok is_dict in
    (
      d,
      remove "name" d,
      has,
      λ k.
          ap (λ x. get_item x k) written
          ∙ get_item-put "metadata" k n spec
          ∙ ap (λ a. if "metadata" == k then ok a else get_item (dict spec) k) removed
          ∙ ap (λ b. if "metadata" == k then ok (dict (remove "name" d)) else get_item b k)
              (sym at),
      find-remove "name" d (unique d has),
    )
