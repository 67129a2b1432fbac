-- ===== src/KfParse/Inline.antt =====
-- What is done with one text: an image with its tag, or a text that may hold JSON or YAML.
use Prim.Native.Char.{code}
use test_minio.Base.{
  String, ℕ, Bool, ◌&&◌, ◌||◌, Option, none, some, List, [], ◌∷◌, ◌++◌, ◌<>◌, ◌=ℕ=◌, leb,
  if◌then◌else◌, Result, ok, err, type_error,
}
use test_minio.Base.Text.{has_char, begins_with, is_space}
use test_minio.Base.Value.{Value, Fields, str, find}

-- '{0}:{1}'.format(value, v)
pub tagged : (Value → String) → String → Option Value → List String
tagged to_text value none = []
tagged to_text value (some (str tag)) = (value <> ":" <> tag) ∷ []
tagged to_text value (some v) = (value <> ":" <> to_text v) ∷ []

unfoldable pub concat_image_name_with_tag : (Value → String) → Fields → Value → Result (List String)
unfolding tagged
concat_image_name_with_tag to_text inp_dict (str value) =
    if has_char b':' value
    then ok (value ∷ [])
    else ok (
        tagged to_text value (find "defaultImageVersion" inp_dict)
        ++ tagged to_text value (find "defaultGpuImageVersion" inp_dict))
concat_image_name_with_tag to_text inp_dict _ = err type_error

-- `[a-zA-Z]`
is_letter : ℕ → Bool
is_letter c = (leb b'a' c && leb c b'z') || (leb b'A' c && leb c b'Z')

-- `.*`: up to the end of the line
first_line : String → String
first_line String.[] = ""
first_line (String.◌∷◌ c s) = if code c =ℕ= b'\n' then "" else String.◌∷◌ c (first_line s)

-- `\s*([a-zA-Z]+.*)` at the beginning of a text, whose group is the rest of the line from the letter on
after_space : String → Option String
after_space String.[] = none
after_space (String.◌∷◌ c s) =
    if is_letter (code c)
    then some (first_line (String.◌∷◌ c s))
    else if is_space (code c)
    then after_space s
    else none

-- `\s+([a-zA-Z]+.*)`
image_name : String → Option String
unfolding after_space
image_name String.[] = none
image_name (String.◌∷◌ c s) = if is_space (code c) then after_space s else none

-- s.removeprefix("image:"), for a text that begins with it
drop_key : String → String
drop_key
      (String.◌∷◌ a (String.◌∷◌ b (String.◌∷◌ c (String.◌∷◌ d (String.◌∷◌ e (String.◌∷◌ f s)))))) =
    s
drop_key s = ""

-- the first of two
or_else : Option String → Option String → Option String
or_else (some x) o = some x
or_else none o = o

-- re.search(r'image:\s+([a-zA-Z]+.*)', text_data), its group
unfoldable pub search_yaml : String → Option String
unfolding image_name drop_key or_else begins_with first_line is_letter is_space
search_yaml String.[] = none
search_yaml (String.◌∷◌ c s) =
    or_else
      (if begins_with (String.◌∷◌ c s) "image:"
        then image_name (drop_key (String.◌∷◌ c s))
        else none)
      (search_yaml s)

abbrev pub found : Option String → List String
found none = []
found (some img) = img ∷ []
