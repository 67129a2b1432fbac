-- ===== src/KfParse/Tests.antt =====
-- Runs of the parser, and the theorems at a concrete document.
use Prim.Native.String.{count}
use mathlib.Core.Option.{some-injective}
use test_minio.Base.{
  subst, sym, ◌∙◌, String, ◌≡◌, refl, true, false, none, some, List, [], ◌∷◌, ◌==◌, if◌then◌else◌,
  ok, err, arith, Bool-cases, inl, inr, All, eq_iff, index_error,
}
use test_minio.Base.Text.{contains, begins_with, has_char, is_space}
use test_minio.Base.Value.{Value, Fields, str, dict, arr, obj, fields, find}
use test_minio.KfParse.{Loads}
use test_minio.KfParse.Inline.{concat_image_name_with_tag, search_yaml}
use test_minio.KfParse.Extract.{
  extract, entry, leaf, parsed, parse_json_images, extract_images_recursively,
}
use test_minio.KfParse.Depth.{Shortens, TextsBelow, Ends, extract_images_recursively-Ends}
use test_minio.KfParse.Images.{process_json_file, IsSetOf, process_json_file-IsSetOf}
use test_minio.KfParse.Lines.{AreWords, find_images, txt_images, read_lines, txt_images-lines_of}
use test_minio.KfParse.Missed.{emptied, entry-emptied}

abbrev inline_json : String
inline_json = "{\"image\":\"b\",\"defaultImageVersion\":\"v1\"}"

abbrev inline_value : Value
inline_value = obj (("image", str "b") ∷ ("defaultImageVersion", str "v1") ∷ [])

-- A parser that knows one text.
abbrev loads_ : Loads
loads_ s = if s == inline_json then some inline_value else none

to_text_ : Value → String
to_text_ v = ""

loads_-inline : (s : String) → s == inline_json ≡ true → loads_ s ≡ some inline_value
loads_-inline s y = rw y refl

loads_-else : (s : String) → s == inline_json ≡ false → loads_ s ≡ none
loads_-else s n = rw n refl

inline-TextsBelow : TextsBelow (count inline_json) inline_value
inline-TextsBelow = omega arith

loads_-Shortens : Shortens loads_
loads_-Shortens s v e = elim (Bool-cases (s == inline_json)) [
  | inl y ↦
      subst (TextsBelow (count s)) (some-injective inline_value v (sym (loads_-inline s y) ∙ e)) (
        subst (λ t. TextsBelow (count t) inline_value) (sym ((eq_iff s inline_json).0 y))
          inline-TextsBelow)
  | inr n ↦ absurd (ground (arith, sym (loads_-else s n) ∙ e))
]

abbrev document : Value
document = obj (
    ("image", str "a:1")
    ∷ ("data", str inline_json)
    ∷ ("other", arr (obj (("image", str "a:1") ∷ []) ∷ str "image" ∷ []))
    ∷ (
      "config",
      obj (
          ("yaml", str "x\nimage:  c:2\ny")
          ∷ ("containers", arr (obj (("image", str "d:3") ∷ []) ∷ []))
          ∷ []),
    )
    ∷ [])

run :
    extract_images_recursively loads_ to_text_ 90 document
    ≡ ok ("a:1" ∷ "b:v1" ∷ "a:1" ∷ "c:2" ∷ [])
unfolding extract_images_recursively parse_json_images parsed extract leaf
    concat_image_name_with_tag search_yaml contains begins_with has_char find
run = refl

extract_images_recursively-Ends_example :
    Ends (extract_images_recursively loads_ to_text_ 90 document)
extract_images_recursively-Ends_example =
    extract_images_recursively-Ends loads_ to_text_ loads_-Shortens 90 document (omega arith)

process_json_file-IsSetOf_example :
    (uniq : List String) × (process_json_file loads_ to_text_ 90 (some document) ≡ ok uniq)
    × IsSetOf ("a:1" ∷ "b:v1" ∷ "a:1" ∷ "c:2" ∷ []) uniq
process_json_file-IsSetOf_example =
    process_json_file-IsSetOf loads_ to_text_ 90 document ("a:1" ∷ "b:v1" ∷ "a:1" ∷ "c:2" ∷ []) run

-- An image in a list in a dictionary in a dictionary.
abbrev deep : Fields
deep = fields (("containers", arr (obj (("image", str "d:3") ∷ []) ∷ [])) ∷ [])

entry-emptied_example :
    entry to_text_ (parse_json_images loads_ to_text_ 9) deep "spec" (dict (emptied deep))
    ≡ entry to_text_ (parse_json_images loads_ to_text_ 9) deep "spec" (dict deep)
entry-emptied_example = entry-emptied loads_ to_text_ 9 deep "spec" deep

missed : extract_images_recursively loads_ to_text_ 9 (obj (("spec", dict deep) ∷ [])) ≡ ok []
unfolding extract_images_recursively extract leaf
missed = refl

letters : All AreWords (("a", "b") ∷ [])
unfolding is_space
letters = ((((refl, tt), refl), ((refl, tt), refl)), tt)

txt_images_words : txt_images ("a b\n" ∷ []) ≡ ok ("b" ∷ [])
txt_images_words = txt_images-lines_of (("a", "b") ∷ []) letters

one_word : txt_images ("mc\n" ∷ []) ≡ err index_error
unfolding txt_images read_lines
one_word = refl

printed : find_images ("a\n" ∷ "image: b\n" ∷ []) ≡ "image: b\n" ∷ []
unfolding find_images contains begins_with
printed = refl
