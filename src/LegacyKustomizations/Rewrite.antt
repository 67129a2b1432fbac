-- ===== src/LegacyKustomizations/Rewrite.antt =====
-- The rewriting of `generate`: the paths of a kustomization, from the directory that kfctl wrote it in to
-- the one of the tests, which is `num_parents` directories below the root of the repository.
use Prim.Native.Nat.{ℕ, zero, suc}
use Prim.Native.String.{count}
use test_minio.Base.{
  String, none, some, List, [], ◌∷◌, ◌++◌, Result, ok, err, key_error, type_error, attribute_error,
  ◌>>=◌, Dict, lookup, insert, length,
}
use test_minio.Base.Value.{Value, Fields, str, dict, get_or, get_item, get_path, iterate, put, arr}
use test_minio.Base.Text.{split, from_index}
use test_minio.Base.FilePath.{join_all}
use test_minio.LegacyKustomizations.Generators.{hash}

-- The number of "..": the parts of the test directory behind the root, with the empty one in front of
-- the first "/" counted for the directory of the application.
unfoldable pub num_parents : String → String → ℕ
unfolding split from_index
num_parents repo_root test_path = length (split (from_index (count repo_root) test_path) "/")

-- [".."] * num_parents
unfoldable pub parents : ℕ → List String
parents zero = []
parents (suc n) = ".." ∷ parents n

-- os.path.join(*pieces); there is always a piece
unfoldable pub join_pieces : List String → String
unfolding join_all
join_pieces [] = ""
join_pieces (p ∷ ps) = join_all p ps

-- The pieces of a path, joined.
unfoldable pub rewrite_path : ℕ → String → String → String
unfolding parents join_pieces
rewrite_path n app b = join_pieces (parents n ++ app ∷ b ∷ [])

-- `os.path.join` takes texts only.
abbrev pub rewrite_value : ℕ → Value → Value → Result Value
rewrite_value n (str app) (str b) = ok (str (rewrite_path n app b))
rewrite_value n _ _ = err type_error

-- One path of the application `d`: a directory that is none has no `apps[d]`.
pub rewrite_item : Dict Value → String → ℕ → Value → Result Value
rewrite_item apps d n b = elim (lookup d apps) [
  | none ↦ err key_error
  | some app ↦ rewrite_value n app b
]

pub rewrite_items : Dict Value → String → ℕ → List Value → Result (List Value)
unfolding rewrite_item
rewrite_items apps d n [] = ok []
rewrite_items apps d n (b ∷ bs) = do
  v ← rewrite_item apps d n b
  new ← rewrite_items apps d n bs
  ok (v ∷ new)

-- the body of the loop over the fields
pub rewrite_field : Dict Value → String → ℕ → String → Fields → Result Fields
unfolding get_or iterate rewrite_items put
rewrite_field apps d n f kustomization = do
  v ← get_or (dict kustomization) f (arr [])
  bs ← iterate v
  new ← rewrite_items apps d n bs
  ok (put f (arr new) kustomization)

pub rewrite_fields : Dict Value → String → ℕ → List String → Fields → Result Fields
unfolding rewrite_field
rewrite_fields apps d n [] kustomization = ok kustomization
rewrite_fields apps d n (f ∷ fs) kustomization = do
  k ← rewrite_field apps d n f kustomization
  rewrite_fields apps d n fs k

abbrev pub path_fields : List String
path_fields = "bases" ∷ "configurations" ∷ "resources" ∷ "patches" ∷ "patchesStrategicMerge" ∷ []

-- Only a dictionary has `get`.
unfoldable pub rewrite_kustomization : Dict Value → String → ℕ → Value → Result Fields
unfolding rewrite_fields
rewrite_kustomization apps d n (dict kustomization) =
    rewrite_fields apps d n path_fields kustomization
rewrite_kustomization apps d n _ = err attribute_error

-- apps[name] = path: a name that is no text is never looked up.
abbrev pub set_app : Value → Value → Dict Value → Dict Value
set_app (str name) path apps = insert name path apps
set_app _ path apps = apps

pub read_app : Dict Value → Value → Result (Dict Value)
unfolding get_path get_item hash insert
read_app apps a = do
  path ← get_path ("kustomizeConfig" ∷ "repoRef" ∷ "path" ∷ []) a
  name ← get_item a "name"
  key ← hash name
  ok (set_app key path apps)

pub read_apps : Dict Value → List Value → Result (Dict Value)
unfolding read_app
read_apps apps [] = ok apps
read_apps apps (a ∷ rest) = do x ← read_app apps a; read_apps x rest

-- The paths of the applications of a KFDef.
unfoldable pub apps_of : Value → Result (Dict Value)
unfolding get_path iterate read_apps
apps_of kfdef_spec = do
  v ← get_path ("spec" ∷ "applications" ∷ []) kfdef_spec
  applications ← iterate v
  read_apps [] applications
