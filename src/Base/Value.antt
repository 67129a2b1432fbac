-- ===== src/Base/Value.antt =====
-- The values of JSON and YAML documents, and Python's operations on them.
use Prim.Native.String.{count}
use test_minio.Base.Text.{char_text}
use test_minio.Base.{
  ℕ, suc, String, ◌≡◌, refl, Bool, true, false, not, ◌||◌, Option, none, some, List, [], ◌∷◌,
  Result, ok, err, key_error, type_error, attribute_error, ◌>>=◌, Dict, arith, ◌=ℕ=◌, ◌==◌, eq_iff,
  if◌then◌else◌,
}

-- `other` stands for any other scalar (a float, a negative number, a date), with its truth value.
mutual
  pub data Value : Type 0 where
    null : Value
    bool other : Bool → Value
    num : ℕ → Value
    str : String → Value
    list : Items → Value
    dict : Fields → Value

  pub data Items : Type 0 where
    nil : Items
    item : Value → Items → Items

  -- in insertion order
  pub data Fields : Type 0 where
    end : Fields
    field : String → Value → Fields → Fields

-- `[...]` and `{...}` in the source
abbrev pub items : List Value → Items
items [] = nil
items (v ∷ vs) = item v (items vs)

abbrev pub fields : Dict Value → Fields
fields [] = end
fields ((k, v) ∷ d) = field k v (fields d)

abbrev pub arr : List Value → Value
arr vs = list (items vs)

abbrev pub obj : Dict Value → Value
obj d = dict (fields d)

-- the items of a list, and of a dictionary
unfoldable pub item_list : Items → List Value
item_list nil = []
item_list (item v vs) = v ∷ item_list vs

unfoldable pub find : String → Fields → Option Value
find k end = none
find k (field j v d) = if j == k then some v else find k d

-- d[k] = v
unfoldable pub put : String → Value → Fields → Fields
put k v end = field k v end
put k v (field j w d) = if j == k then field j v d else field j w (put k v d)

-- del d[k] where the key is there
unfoldable pub remove : String → Fields → Fields
remove k end = end
remove k (field j w d) = if j == k then d else field j w (remove k d)

-- bool(v)
unfoldable pub truthy : Value → Bool
truthy null = false
truthy (bool b) = b
truthy (other b) = b
truthy (num n) = not (n =ℕ= 0)
truthy (str s) = not (s == "")
truthy (list nil) = false
truthy (list (item v vs)) = true
truthy (dict end) = false
truthy (dict (field k v d)) = true

-- v.get(k, default): only a dictionary has the method
unfoldable pub get_or : Value → String → Value → Result Value
get_or (dict d) k default = elim (find k d) [ none ↦ ok default | some v ↦ ok v ]
get_or _ k default = err attribute_error

-- v[k] for a text k: a dictionary may lack it, and nothing else takes a text for an index
unfoldable pub get_item : Value → String → Result Value
get_item (dict d) k = elim (find k d) [ none ↦ err key_error | some v ↦ ok v ]
get_item _ k = err type_error

-- v[k1][k2]... = x
unfoldable pub set_path : List String → Value → Value → Result Value
set_path [] x v = ok x
set_path (k ∷ []) x (dict d) = ok (dict (put k x d))
set_path (k ∷ j ∷ path) x (dict d) = elim (find k d) [
  | none ↦ err key_error
  | some v ↦ do v' ← set_path (j ∷ path) x v; ok (dict (put k v' d))
]
set_path (k ∷ path) x _ = err type_error

-- v[k1][k2]...
unfoldable pub get_path : List String → Value → Result Value
get_path [] v = ok v
get_path (k ∷ path) v = do w ← get_item v k; get_path path w

-- `for c in v`: a list by its items, a dictionary by its keys, a text by its characters
key_values : Fields → List Value
key_values end = []
key_values (field k v d) = str k ∷ key_values d

characters : String → List Value
characters String.[] = []
characters (String.◌∷◌ c s) = str (char_text c) ∷ characters s

unfoldable pub iterate : Value → Result (List Value)
unfolding key_values characters item_list
iterate (list vs) = ok (item_list vs)
iterate (dict d) = ok (key_values d)
iterate (str s) = ok (characters s)
iterate _ = err type_error

length_items : Items → ℕ
length_items nil = 0
length_items (item v vs) = suc (length_items vs)

length_fields : Fields → ℕ
length_fields end = 0
length_fields (field k v d) = suc (length_fields d)

-- len(v)
unfoldable pub len : Value → Result ℕ
unfolding length_items length_fields
len (str s) = ok (count s)
len (list vs) = ok (length_items vs)
len (dict d) = ok (length_fields d)
len _ = err type_error

pub find-put :
    (k j : String) (v : Value) (d : Fields)
    → find j (put k v d) ≡ (if k == j then some v else find j d)
unfolding find put
find-put k j v end = refl
find-put k j v (field i w d) = ground (arith, eq_iff k j, eq_iff i k, eq_iff i j, find-put k j v d)

pub put-put : (k : String) (v w : Value) (d : Fields) → put k v (put k w d) ≡ put k v d
unfolding put
put-put k v w end = ground (arith, eq_iff k k)
put-put k v w (field i x d) = ground (arith, eq_iff i k, put-put k v w d)

pub find-put_self : (k : String) (v : Value) (d : Fields) → find k (put k v d) ≡ some v
find-put_self k v d = rw find-put (ground (arith, eq_iff k k))

-- k in v, for a dictionary
unfoldable pub has_key : String → Fields → Bool
has_key k end = false
has_key k (field j v d) = j == k || has_key k d

-- v == s for a text s
unfoldable pub is_text : String → Value → Bool
is_text s (str t) = t == s
is_text s _ = false
