-- ===== src/ExtractImages/Images.antt =====
-- `append_or_update`: the entries of a kustomization's `images`.
pub mod Listed
use test_minio.Base.{
  String, Bool, true, false, Option, none, some, List, [], ◌∷◌, Result, ok, err, key_error,
  type_error, ◌>>=◌, ◌==◌, if◌then◌else◌,
}
use test_minio.Base.Value.{Value, Fields, str, dict, end, field, find, put, truthy, is_text}
use test_minio.ExtractImages.Reference.{Image}

-- img.get(key, default)
abbrev pub found_or : Value → Option Value → Value
found_or default none = default
found_or default (some v) = v

-- if img.get(key, default): img[key] = img.get(key, default)
unfoldable pub keep_or_set : String → String → Fields → Fields
unfolding truthy
keep_or_set key default img =
    let v = found_or (str default) (find key img) in if truthy v then put key v img else img

unfoldable pub update : Fields → Image → Fields
update img new = keep_or_set "digest" new.digest (
    keep_or_set "newTag" new.tag (put "newName" (found_or (str new.name) (find "newName" img)) img))

abbrev pub put_nonempty : String → String → Fields → Fields
put_nonempty key v d = if v == "" then d else put key (str v) d

unfoldable pub kust_img : Image → Fields
kust_img new = put_nonempty "digest" new.digest (
    put_nonempty "newTag" new.tag
      (field "name" (str new.name) (field "newName" (str new.name) end)))

-- The first entry with the name is updated, and a new one goes to the end.
unfoldable pub append_or_update : List Value → Image → Result (List Value)
append_or_update [] new = ok (dict (kust_img new) ∷ [])
append_or_update (dict img ∷ img_list) new = elim (find "name" img) [
  | none ↦ err key_error
  | some name ↦ elim (is_text new.name name) [
    | true ↦ ok (dict (update img new) ∷ img_list)
    | false ↦ do l ← append_or_update img_list new; ok (dict img ∷ l)
  ]
]
append_or_update (_ ∷ img_list) new = err type_error
