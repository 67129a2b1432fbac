-- ===== src/KfParse/Depth.antt =====
-- The depth of texts inside texts is bounded by the length of the longest text, since JSON quotes what
-- it contains.
use Prim.Native.String.{count}
use test_minio.Base.{
  String, ℕ, zero, suc, ◌<◌, ◌≤◌, ◌≡◌, refl, Bool, true, false, Option, none, some, List, [], ◌==◌,
  if◌then◌else◌, Result, ok, err, type_error, arith, inl, inr, Bool-cases,
}
use test_minio.Base.Text.{contains, has_char}
use test_minio.Base.Value.{Value, Items, Fields, str, list, dict, nil, item, end, field}
use test_minio.KfParse.{Loads}
use test_minio.KfParse.Inline.{concat_image_name_with_tag}
use test_minio.KfParse.Extract.{
  ◌+=◌, leaf, extract, entries, entry, each, inner, second, parsed, parse_json_images,
  extract_images_recursively,
}

-- Every text in the value is shorter.
abbrev mutual
  pub TextsBelow : ℕ → Value → Type 0
  TextsBelow n (str s) = count s < n
  TextsBelow n (list vs) = ItemsBelow n vs
  TextsBelow n (dict d) = FieldsBelow n d
  TextsBelow n _ = Unit

  pub ItemsBelow : ℕ → Items → Type 0
  ItemsBelow n nil = Unit
  ItemsBelow n (item v vs) = TextsBelow n v × ItemsBelow n vs

  pub FieldsBelow : ℕ → Fields → Type 0
  FieldsBelow n end = Unit
  FieldsBelow n (field k v d) = TextsBelow n v × FieldsBelow n d

-- The texts in a parsed text are shorter than it.
abbrev pub Shortens : Loads → Type 0
Shortens loads = (s : String) (v : Value) → loads s ≡ some v → TextsBelow (count s) v

mutual
  TextsBelow-mono : (n m : ℕ) (v : Value) → n ≤ m → TextsBelow n v → TextsBelow m v
  TextsBelow-mono n m (str s) le h = omega arith
  TextsBelow-mono n m (list vs) le h = ItemsBelow-mono n m vs le h
  TextsBelow-mono n m (dict d) le h = FieldsBelow-mono n m d le h
  TextsBelow-mono n m _ le h = tt

  ItemsBelow-mono : (n m : ℕ) (vs : Items) → n ≤ m → ItemsBelow n vs → ItemsBelow m vs
  ItemsBelow-mono n m nil le h = tt
  ItemsBelow-mono n m (item v vs) le h =
      (TextsBelow-mono n m v le h.0, ItemsBelow-mono n m vs le h.1)

  FieldsBelow-mono : (n m : ℕ) (d : Fields) → n ≤ m → FieldsBelow n d → FieldsBelow m d
  FieldsBelow-mono n m end le h = tt
  FieldsBelow-mono n m (field k v d) le h =
      (TextsBelow-mono n m v le h.0, FieldsBelow-mono n m d le h.1)

-- A list of images, or the `TypeError` for an image that is no text.
abbrev pub Ends : Result (List String) → Type 0
Ends (ok images) = Unit
Ends (err type_error) = Unit
Ends (err _) = ⊥

Ends-sum : (a b : Result (List String)) → Ends a → Ends b → Ends (a += b)
Ends-sum (ok xs) (ok ys) p q = tt
Ends-sum (ok xs) (err type_error) p q = tt
Ends-sum (ok xs) (err _) p q = q
Ends-sum (err type_error) b p q = tt
Ends-sum (err _) b p q = p

Ends-if : (b : Bool) (x y : Result (List String)) → Ends x → Ends y → Ends (if b then x else y)
Ends-if true x y p q = p
Ends-if false x y p q = q

concat-Ends :
    (to_text : Value → String) (d : Fields) (v : Value)
    → Ends (concat_image_name_with_tag to_text d v)
unfolding concat_image_name_with_tag
concat-Ends to_text d (str s) = elim (Bool-cases (has_char b':' s)) [
  | inl y ↦ rw y tt
  | inr n ↦ rw n tt
]
concat-Ends to_text d _ = tt

module _ (to_text : Value → String) (inline : String → Result (List String)) (n : ℕ)
    (within : (s : String) → count s < n → Ends (inline s)) where
  leaf-Ends :
      (d : Fields) (k : String) (v : Value) → TextsBelow n v → Ends (leaf to_text inline d k v)
  unfolding leaf
  leaf-Ends d k (str s) h = Ends-if (k == "image") _ _ (concat-Ends to_text d (str s)) (within s h)
  leaf-Ends d k v h =
      Ends-if (k == "image") (concat_image_name_with_tag to_text d v) (ok [])
        (concat-Ends to_text d v) tt

  mutual
    unfolding extract

    extract-Ends : (v : Value) → TextsBelow n v → Ends (extract to_text inline v)
    extract-Ends (dict d) h = entries-Ends d d h
    extract-Ends _ h = tt

    entries-Ends : (whole d : Fields) → FieldsBelow n d → Ends (entries to_text inline whole d)
    entries-Ends whole end h = tt
    entries-Ends whole (field k v d) h =
        Ends-sum (entry to_text inline whole k v) (entries to_text inline whole d)
          (entry-Ends whole k v h.0) (entries-Ends whole d h.1)

    entry-Ends :
        (whole : Fields) (k : String) (v : Value)
        → TextsBelow n v
        → Ends (entry to_text inline whole k v)
    entry-Ends whole k (list vs) h = each-Ends vs h
    entry-Ends whole k (dict d) h = inner-Ends d d h
    entry-Ends whole k (str s) h =
        Ends-if (k == "image") _ _ (concat-Ends to_text whole (str s)) (within s h)
    entry-Ends whole k _ h = tt

    each-Ends : (vs : Items) → ItemsBelow n vs → Ends (each to_text inline vs)
    each-Ends nil h = tt
    each-Ends (item v vs) h =
        Ends-sum (extract to_text inline v) (each to_text inline vs) (extract-Ends v h.0)
          (each-Ends vs h.1)

    inner-Ends : (whole d : Fields) → FieldsBelow n d → Ends (inner to_text inline whole d)
    inner-Ends whole end h = tt
    inner-Ends whole (field k v d) h =
        Ends-sum (second to_text inline whole k v) (inner to_text inline whole d)
          (second-Ends whole k v h.0) (inner-Ends whole d h.1)

    second-Ends :
        (whole : Fields) (k : String) (v : Value)
        → TextsBelow n v
        → Ends (second to_text inline whole k v)
    second-Ends whole k (dict d) h = entries-Ends d d h
    second-Ends whole k (str s) h = leaf-Ends whole k (str s) h
    second-Ends whole k v h = leaf-Ends whole k v h

module _ (loads : Loads) (to_text : Value → String) (shortens : Shortens loads) where
  parsed-Ends :
      (n : ℕ) (s : String)
      → ((t : String) → count t < n → Ends (parse_json_images loads to_text n t))
      → count s ≤ n
      → (o : Option Value) → loads s ≡ o
      → Ends (parsed to_text (parse_json_images loads to_text n) s o)
  unfolding parsed
  parsed-Ends n s within le none e = tt
  parsed-Ends n s within le (some (dict j)) e =
      extract-Ends to_text (parse_json_images loads to_text n) n within (dict j)
        (TextsBelow-mono (count s) n (dict j) le (shortens s (dict j) e))
  parsed-Ends n s within le (some _) e = tt

  parse-Ends : (n : ℕ) (s : String) → count s < n → Ends (parse_json_images loads to_text n s)
  unfolding parse_json_images
  parse-Ends zero s h = absurd (omega arith)
  parse-Ends (suc n) s h =
      Ends-if (contains "image" s) (parsed to_text (parse_json_images loads to_text n) s (loads s))
        (ok []) (parsed-Ends n s (parse-Ends n) (omega arith) (loads s) refl) tt

  -- Where parsing a text gives only texts that are shorter, and the depth is more than the length
  -- of the longest text of the document, the extraction of images gives a list or a TypeError, and
  -- never runs out of depth.
  pub extract_images_recursively-Ends :
      (n : ℕ) (v : Value) → TextsBelow n v → Ends (extract_images_recursively loads to_text n v)
  unfolding extract_images_recursively
  extract_images_recursively-Ends n v h =
      extract-Ends to_text (parse_json_images loads to_text n) n (parse-Ends n) v h
