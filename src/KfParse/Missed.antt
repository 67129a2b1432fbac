-- ===== src/KfParse/Missed.antt =====
-- The lists of a dictionary within a dictionary are not searched.
use test_minio.Base.{
  String, ℕ, ◌≡◌, refl, ◌∙◌, ap, Bool, true, ◌||◌, some, List, ◌==◌, if◌then◌else◌, Result, eq_iff,
  inl, inr, Bool-cases,
}
use test_minio.Base.Value.{Value, Items, Fields, str, list, dict, nil, end, field, find}
use test_minio.KfParse.{Loads}
use test_minio.KfParse.Inline.{concat_image_name_with_tag}
use test_minio.KfParse.Extract.{◌+=◌, leaf, extract, entry, inner, second, parse_json_images}

abbrev pub is_version : String → Bool
is_version k = k == "defaultImageVersion" || k == "defaultGpuImageVersion"

-- A list that is no version is emptied.
abbrev pub emptied_value : String → Value → Value
emptied_value k (list vs) = if is_version k then list vs else list nil
emptied_value k v = v

abbrev pub emptied : Fields → Fields
emptied end = end
emptied (field k v d) = field k (emptied_value k v) (emptied d)

emptied_version : (k : String) (v : Value) → is_version k ≡ true → emptied_value k v ≡ v
emptied_version k (list vs) h = rw h refl
emptied_version k v h = refl

find-emptied : (k : String) (d : Fields) → is_version k ≡ true → find k (emptied d) ≡ find k d
unfolding find
find-emptied k end h = refl
find-emptied k (field j v d) h = elim (Bool-cases (j == k)) [
  | inl y ↦ rw y (ap some (emptied_version j v (ap is_version ((eq_iff j k).0 y) ∙ h)))
  | inr n ↦ rw n (find-emptied k d h)
]

module _ (to_text : Value → String) (inline : String → Result (List String)) (whole : Fields) where
  concat-emptied :
      (v : Value)
      → concat_image_name_with_tag to_text (emptied whole) v
        ≡ concat_image_name_with_tag to_text whole v
  unfolding concat_image_name_with_tag
  concat-emptied (str s) =
      rw
        (
          find-emptied "defaultImageVersion" whole refl,
          find-emptied "defaultGpuImageVersion" whole refl,
        )
        refl
  concat-emptied _ = refl

  leaf-emptied :
      (k : String) (v : Value)
      → leaf to_text inline (emptied whole) k v ≡ leaf to_text inline whole k v
  unfolding leaf
  leaf-emptied k (str s) = rw (concat-emptied (str s)) refl
  leaf-emptied k v = rw (concat-emptied v) refl

  leaf-list :
      (k : String) (vs ws : Items)
      → leaf to_text inline whole k (list vs) ≡ leaf to_text inline whole k (list ws)
  unfolding leaf concat_image_name_with_tag
  leaf-list k vs ws = refl

  second-emptied :
      (k : String) (v : Value)
      → second to_text inline (emptied whole) k (emptied_value k v)
        ≡ second to_text inline whole k v
  unfolding extract
  second-emptied k (dict d) = refl
  second-emptied k (list vs) = elim (Bool-cases (is_version k)) [
    | inl y ↦ rw y (leaf-emptied k (list vs))
    | inr n ↦ rw n (leaf-emptied k (list nil) ∙ leaf-list k nil vs)
  ]
  second-emptied k v = leaf-emptied k v

  inner-emptied :
      (d : Fields) → inner to_text inline (emptied whole) (emptied d) ≡ inner to_text inline whole d
  unfolding extract
  inner-emptied end = refl
  inner-emptied (field k v d) =
      ap (λ r. r += inner to_text inline (emptied whole) (emptied d)) (second-emptied k v)
      ∙ ap (λ r. second to_text inline whole k v += r) (inner-emptied d)

-- For a dictionary within a dictionary, the images found do not change when each of its lists is
-- emptied that is not under the name of a version.
pub entry-emptied :
    (loads : Loads) (to_text : Value → String) (depth : ℕ) (inp_dict : Fields) (key : String)
    (d : Fields)
    → entry to_text (parse_json_images loads to_text depth) inp_dict key (dict (emptied d))
      ≡ entry to_text (parse_json_images loads to_text depth) inp_dict key (dict d)
unfolding extract
entry-emptied loads to_text depth inp_dict key d =
    inner-emptied to_text (parse_json_images loads to_text depth) d d
