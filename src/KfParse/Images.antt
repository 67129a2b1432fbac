-- ===== src/KfParse/Images.antt =====
-- `process_json_file` and `main`: each image once. A file is given by what `json.load` makes of it,
-- `none` where it is no JSON or no UTF-8.
use test_minio.Base.{
  String, ℕ, ◌≡◌, refl, ◌∙◌, Bool, true, false, ◌||◌, Option, none, some, List, [], ◌∷◌, ◌==◌, Dict,
  insert, keys, elem, IsUnique, Result, ok, ◌>>=◌, arith, eq_iff, inl, inr, Bool-cases,
}
use test_minio.Base.Value.{Value}
use test_minio.KfParse.{Loads}
use test_minio.KfParse.Extract.{extract_images_recursively}

-- dict.fromkeys(images), onto a dictionary
pub from_keys : Dict (Unit {0}) → List String → Dict (Unit {0})
from_keys d [] = d
from_keys d (x ∷ xs) = from_keys (insert x tt d) xs

pub uniq_images : List String → List String
unfolding from_keys
uniq_images images = keys (from_keys [] images)

module _ (loads : Loads) (to_text : Value → String) (depth : ℕ) where
  pub process_json_file : Option Value → Result (List String)
  process_json_file none = ok []
  process_json_file (some json_data) = do
    images ← extract_images_recursively loads to_text depth json_data
    ok (uniq_images images)

-- The same images, as a list without repetitions.
abbrev pub IsSetOf : List String → List String → Type 0
IsSetOf images uniq = IsUnique uniq × ((x : String) → elem x uniq ≡ elem x images)

elem-keys-insert :
    (x k : String) (d : Dict (Unit {0}))
    → elem x (keys (insert k tt d)) ≡ (x == k || elem x (keys d))
unfolding elem keys insert
elem-keys-insert x k [] = refl
elem-keys-insert x k ((j, v) ∷ d) =
    ground (arith, eq_iff j k, eq_iff x j, eq_iff x k, elem-keys-insert x k d)

keys-insert-IsUnique :
    (k : String) (d : Dict (Unit {0})) → IsUnique (keys d) → IsUnique (keys (insert k tt d))
unfolding keys insert elem
keys-insert-IsUnique k [] h = (refl, tt)
keys-insert-IsUnique k ((j, v) ∷ d) h = elim (Bool-cases (j == k)) [
  | inl y ↦ rw y h
  | inr n ↦ rw n (elem-keys-insert j k d ∙ rw (n, h.0) refl, keys-insert-IsUnique k d h.1)
]

from_keys-IsUnique :
    (xs : List String) (d : Dict (Unit {0})) → IsUnique (keys d) → IsUnique (keys (from_keys d xs))
unfolding from_keys
from_keys-IsUnique [] d h = h
from_keys-IsUnique (x ∷ xs) d h = from_keys-IsUnique xs (insert x tt d) (keys-insert-IsUnique x d h)

or_false : (b : Bool) → b ≡ (b || false)
or_false true = refl
or_false false = refl

or_swap : (a b c : Bool) → ((a || b) || c) ≡ (b || (a || c))
or_swap true true c = refl
or_swap true false c = refl
or_swap false true c = refl
or_swap false false c = refl

elem-from_keys :
    (y : String) (xs : List String) (d : Dict (Unit {0}))
    → elem y (keys (from_keys d xs)) ≡ (elem y (keys d) || elem y xs)
unfolding from_keys elem
elem-from_keys y [] d = or_false (elem y (keys d))
elem-from_keys y (x ∷ xs) d =
    elem-from_keys y xs (insert x tt d)
    ∙ rw (elem-keys-insert y x d) (or_swap (y == x) (elem y (keys d)) (elem y xs))

uniq_images-IsSetOf : (images : List String) → IsSetOf images (uniq_images images)
unfolding uniq_images keys elem
uniq_images-IsSetOf images = (from_keys-IsUnique images [] tt, λ x. elem-from_keys x images [])

-- Where the extraction from a document gives images, process_json_file gives the same images, each
-- once.
pub process_json_file-IsSetOf :
    (loads : Loads) (to_text : Value → String) (depth : ℕ) (v : Value) (images : List String)
    → extract_images_recursively loads to_text depth v ≡ ok images
    → (uniq : List String) × (process_json_file loads to_text depth (some v) ≡ ok uniq)
      × IsSetOf images uniq
unfolding process_json_file
process_json_file-IsSetOf loads to_text depth v images e =
    (uniq_images images, rw e refl, uniq_images-IsSetOf images)
