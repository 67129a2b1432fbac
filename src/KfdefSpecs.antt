-- ===== src/KfdefSpecs.antt =====
-- hack/build_kfdef_specs.py: the KFDef of each version, built by kustomize and written without its name
-- to kfdef/. The root of the repository is given by the caller, and log lines are left out.
pub mod Unnamed
pub mod Names
pub mod Written
mod Tests
use Prim.Native.String.{count}
use test_minio.Base.{
  String, ◌<>◌, ◌==◌, Option, none, some, List, [], ◌∷◌, Result, ok, err, key_error, type_error,
  ◌>>=◌ as ◌>>>=◌, if◌then◌else◌,
}
use test_minio.Base.Value.{Value, Items, Fields, str, list, dict, find, put, remove, get_item}
use test_minio.Base.Text.{from_index, replace_char}
use test_minio.Base.FilePath.{path_join, splitext}
use test_minio.Base.Exec.{Exec, lift, gets, ◌>>=◌, ◌>>◌}
use test_minio.Host.{Host, Actions, run, write, act, for_each}

abbrev pub resource_prefix : String
resource_prefix = "kfdef.apps.kubeflow.org_v1_kfdef_"

-- the extension for a version
pub extension : String → String
extension version = if version == "master" then ".yaml" else "." <> (version <> ".yaml")

-- The name of the file to be written, from the one that kustomize wrote.
pub new_name : String → String → String
unfolding from_index splitext replace_char extension
new_name version f =
    replace_char b'-' "_" ((splitext (from_index (count resource_prefix) f)).0 <> extension version)

-- del v["name"]: only a dictionary has the key
pub delete_key : String → Value → Result Value
unfolding remove find
delete_key k (dict d) = elim (find k d) [ none ↦ err key_error | some v ↦ ok (dict (remove k d)) ]
delete_key k _ = err type_error

-- del spec["metadata"]["name"]
pub delete_name : Value → Result Value
unfolding find put delete_key
delete_name (dict spec) = elim (find "metadata" spec) [
  | none ↦ err key_error
  | some metadata ↦ delete_key "name" metadata >>>= λ m. ok (dict (put "metadata" m spec))
]
delete_name _ = err type_error

module _ (host : Host) (kfdef_dir : String) where
  -- writing the document without its name
  pub write_spec : String → Value → Exec Actions (Unit {0})
  unfolding delete_name
  write_spec new_file spec = lift (delete_name spec) >>= λ v. act host (write new_file v)

  -- the body of the loop over the files
  pub process_file : String → String → String → Exec Actions (Unit {0})
  unfolding path_join new_name write_spec
  process_file version temp_dir f =
      gets (λ s. host.load s (path_join temp_dir f))
      >>= write_spec (path_join kfdef_dir (new_name version f))

  -- the loop over the files
  pub process_files : String → String → Exec Actions (Unit {0})
  unfolding process_file
  process_files version temp_dir =
      gets (λ s. host.list_dir s temp_dir) >>= for_each (process_file version temp_dir)

  -- kustomize build, and the files that it wrote
  pub build_in : String → String → String → Exec Actions (Unit {0})
  unfolding path_join process_files
  build_in base version temp_dir =
      act host (run ("kustomize" ∷ "build" ∷ path_join base version ∷ "-o" ∷ temp_dir ∷ []) none)
      >> process_files version temp_dir

  -- the body of the loop over the versions
  pub build_version : String → String → Exec Actions (Unit {0})
  unfolding build_in
  build_version base version = gets host.make_temp >>= build_in base version

  -- the loop over the versions in a directory
  pub build_dir : String × List String → Exec Actions (Unit {0})
  unfolding build_version
  build_dir (base, dirs) = for_each (build_version base) dirs

-- KFDefBuilder.run, with the root of the repository
pub build_specs : Host → String → Exec Actions (Unit {0})
unfolding path_join build_dir
build_specs host root =
    gets (λ s. ok (host.walk s (path_join (path_join root "kfdef") "source")))
    >>= for_each (build_dir host (path_join root "kfdef"))
