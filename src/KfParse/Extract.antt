-- ===== src/KfParse/Extract.antt =====
-- `extract_images_recursively` and `parse_json_images`, which call one another: the traversal of a value
-- is recursion on it, and what it does with a text is `inline`, with the depth of texts inside texts
-- as fuel. Where that runs out, it is `RecursionError`.
use test_minio.Base.{
  String, ℕ, zero, suc, Option, none, some, List, [], ◌++◌, ◌==◌, if◌then◌else◌, Result, ok, err,
  recursion_error, ◌>>=◌,
}
use test_minio.Base.Text.{contains}
use test_minio.Base.Value.{Value, Items, Fields, str, list, dict, nil, item, end, field}
use test_minio.KfParse.{Loads}
use test_minio.KfParse.Inline.{concat_image_name_with_tag, search_yaml, found}

-- images += f(...), and then the rest of the loop
infixr 5 ◌+=◌
abbrev pub ◌+=◌ : Result (List String) → Result (List String) → Result (List String)
first += rest = first >>= λ xs. rest >>= λ ys. ok (xs ++ ys)

module _ (to_text : Value → String) (inline : String → Result (List String)) where
  -- a value in a dictionary within a dictionary, where it is no dictionary itself
  unfoldable pub leaf : Fields → String → Value → Result (List String)
  leaf whole k2 (str s) =
      if k2 == "image" then concat_image_name_with_tag to_text whole (str s) else inline s
  leaf whole k2 v2 = if k2 == "image" then concat_image_name_with_tag to_text whole v2 else ok []

  unfoldable mutual
    -- extract_images_recursively
    pub extract : Value → Result (List String)
    extract (dict d) = entries d d
    extract _ = ok []

    -- the loop over the dictionary, of which the fields are left
    pub entries : Fields → Fields → Result (List String)
    entries inp_dict end = ok []
    entries inp_dict (field key value rest) = entry inp_dict key value += entries inp_dict rest

    pub entry : Fields → String → Value → Result (List String)
    entry inp_dict key (list vs) = each vs
    entry inp_dict key (dict d) = inner d d
    entry inp_dict key (str s) =
        if key == "image" then concat_image_name_with_tag to_text inp_dict (str s) else inline s
    entry inp_dict key _ = ok []

    pub each : Items → Result (List String)
    each nil = ok []
    each (item v1 vs) = extract v1 += each vs

    -- the loop over a dictionary within the dictionary
    pub inner : Fields → Fields → Result (List String)
    inner value end = ok []
    inner value (field k2 v2 rest) = second value k2 v2 += inner value rest

    pub second : Fields → String → Value → Result (List String)
    second value k2 (dict d) = entries d d
    second value k2 v2 = leaf value k2 v2

-- the branches on what json.loads gives
unfoldable pub parsed :
    (Value → String)
    → (String → Result (List String))
    → String
    → Option Value
    → Result (List String)
unfolding extract
parsed to_text inline text_data (some (dict j)) = extract to_text inline (dict j)
parsed to_text inline text_data (some _) = ok []
parsed to_text inline text_data none = ok (found (search_yaml text_data))

module _ (loads : Loads) (to_text : Value → String) where
  -- parse_json_images(IMAGE_KEY, text_data)
  unfoldable pub parse_json_images : ℕ → String → Result (List String)
  parse_json_images zero text_data = err recursion_error
  parse_json_images (suc depth) text_data =
      if contains "image" text_data
      then parsed to_text (parse_json_images depth) text_data (loads text_data)
      else ok []

  unfoldable pub extract_images_recursively : ℕ → Value → Result (List String)
  extract_images_recursively depth v = extract to_text (parse_json_images depth) v
