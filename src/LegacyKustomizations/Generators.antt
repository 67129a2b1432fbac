-- ===== src/LegacyKustomizations/Generators.antt =====
-- `build_configmap_generators`, and the loop of `generate` that writes the generators again: each file
-- is copied to the test directory under a name with a number, which goes up from 0.
use Prim.Native.Nat.{ℕ, suc}
use test_minio.Base.{
  String, ◌<>◌, ◌==◌, ◌=ℕ=◌, Bool, true, false, none, some, List, [], ◌∷◌, ◌++◌, map, not, Result,
  ok, err, type_error, attribute_error, ◌>>=◌, if◌then◌else◌,
}
use test_minio.Base.Value.{
  Value, null, bool, num, str, list, dict, get_or, get_item, item_list, arr, obj, iterate, find,
}
use test_minio.Base.FilePath.{path_join}
use test_minio.Base.Decimal.{decimal}
use test_minio.Base.Exec.{Exec, pure, lift, gets, ◌>>=◌ as ◌>>>=◌, ◌>>◌}
use test_minio.Host.{Host, Actions, copy, act}

-- v.append(x): only a list has the method
pub append : Value → Value → Result Value
unfolding item_list
append (list vs) x = ok (arr (item_list vs ++ x ∷ []))
append _ x = err attribute_error

-- p_files of a generator: its `envs`, and its `env` behind them
pub p_files : Value → Result Value
unfolding get_or append
p_files (dict g) = do
  envs ← get_or (dict g) "envs" (arr [])
  elim (find "env" g) [ none ↦ ok envs | some env ↦ append envs env ]
p_files _ = err attribute_error

-- [os.path.join(kustomize_dir, f) for f in files]: only a text is a path
pub join_files : String → List Value → Result (List String)
unfolding path_join
join_files kustomize_dir [] = ok []
join_files kustomize_dir (str f ∷ files) = do
  rest ← join_files kustomize_dir files
  ok (path_join kustomize_dir f ∷ rest)
join_files kustomize_dir (_ ∷ files) = err type_error

-- A key of a dictionary: a list and a dictionary are none.
unfoldable pub hash : Value → Result Value
hash (list vs) = err type_error
hash (dict d) = err type_error
hash v = ok v

-- v == w of two keys; of two `other` scalars it is taken to be false.
pub same_key : Value → Value → Bool
same_key null null = true
same_key (str s) (str t) = s == t
same_key (num m) (num n) = m =ℕ= n
same_key (bool b) (num n) = n =ℕ= (if b then 1 else 0)
same_key (num m) (bool b) = m =ℕ= (if b then 1 else 0)
same_key (bool b) (bool c) = if b then c else not c
same_key _ _ = false

-- the names of the generators with their files, in insertion order
abbrev pub GeneratorFiles : Type 0
GeneratorFiles = List (Value × List String)

-- generators[name] = files
pub set_files : Value → List String → GeneratorFiles → GeneratorFiles
unfolding same_key
set_files name files [] = (name, files) ∷ []
set_files name files ((k, fs) ∷ gs) =
    if same_key k name then (k, files) ∷ gs else (k, fs) ∷ set_files name files gs

-- The files of one generator, and its name.
pub read_generator : String → Value → Result (Value × List String)
unfolding p_files iterate join_files get_item hash
read_generator kustomize_dir g = do
  v ← p_files g
  fs ← iterate v
  files ← join_files kustomize_dir fs
  name ← get_item g "name"
  key ← hash name
  ok (key, files)

-- the loop over the generators
pub read_generators : String → GeneratorFiles → List Value → Result GeneratorFiles
unfolding read_generator set_files
read_generators kustomize_dir generators [] = ok generators
read_generators kustomize_dir generators (g ∷ gs) = do
  entry ← read_generator kustomize_dir g
  read_generators kustomize_dir (set_files entry.0 entry.1 generators) gs

-- build_configmap_generators, on the document of the kustomization
pub generators_of : String → Value → Result GeneratorFiles
unfolding get_or iterate read_generators
generators_of kustomize_dir kustomize = do
  v ← get_or kustomize "configMapGenerator" (arr [])
  gs ← iterate v
  read_generators kustomize_dir [] gs

-- f"params_{params_index}.env"
unfoldable pub params_file : ℕ → String
unfolding decimal
params_file params_index = "params_" <> (decimal params_index <> ".env")

-- The names of a generator's files, and the next index.
abbrev pub Copied : Type 0
Copied = List String × ℕ

module _ (host : Host) where
  unfoldable pub build_configmap_generators : String → Exec Actions GeneratorFiles
  unfolding path_join generators_of
  build_configmap_generators kustomize_dir =
      gets (λ s. host.load s (path_join kustomize_dir "kustomization.yaml")) >>>= λ kustomize.
      lift (generators_of kustomize_dir kustomize)

  module _ (app_test_dir : String) where
    -- the loop over the files of a generator
    unfoldable pub copy_files : ℕ → List String → Exec Actions Copied
    unfolding params_file path_join
    copy_files params_index [] = pure ([], params_index)
    copy_files params_index (f ∷ files) =
        act host (copy f (path_join app_test_dir (params_file params_index)))
        >> (copy_files (suc params_index) files >>>= λ copied.
            pure (params_file params_index ∷ copied.0, copied.1))

    -- g, with the names of its files
    abbrev pub merged : Value → List String → Value
    merged name envs =
        obj (("name", name) ∷ ("envs", arr (map str envs)) ∷ ("behavior", str "merge") ∷ [])

    -- the loop over the generators
    unfoldable pub write_generators : ℕ → GeneratorFiles → Exec Actions (List Value)
    unfolding copy_files
    write_generators params_index [] = pure []
    write_generators params_index ((name, files) ∷ generators) =
        copy_files params_index files >>>= λ copied.
        write_generators copied.1 generators >>>= λ gs. pure (merged name copied.0 ∷ gs)
