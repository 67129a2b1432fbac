-- ===== src/ExtractImages/Reference.antt =====
-- `image_from_string`: a reference to an image is a name with a tag or a digest.
pub mod Laws
use test_minio.Base.{
  String, ℕ, Bool, true, false, Option, none, some, ◌<>◌, Result, ok, err, value_error,
  if◌then◌else◌,
}
use test_minio.Base.Text.{has_char, rsplit}

pub record Image : Type 0 where
  pub name : String
  pub tag : String
  pub digest : String

-- img_str + ":latest" where there is no ":"
unfoldable pub with_tag : String → String
unfolding has_char
with_tag img_str = if has_char b':' img_str then img_str else img_str <> ":latest"

-- The two parts are unpacked into two names, so one part raises `ValueError`.
unfoldable pub image_from_string : String → Result Image
image_from_string img_str =
    let s = with_tag img_str in
    if has_char b'@' s
    then elim (rsplit b'@' s) [
      | none ↦ err value_error
      | some (name, digest) ↦ ok (record { name = name; tag = ""; digest = digest })
    ]
    else elim (rsplit b':' s) [
      | none ↦ err value_error
      | some (name, tag) ↦ ok (record { name = name; tag = tag; digest = "" })
    ]
