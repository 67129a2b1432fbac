-- ===== src/LegacyKustomizations.antt =====
-- hack/generate_legacy_kustomizations.py: the kustomizations of the tests, from those that kfctl wrote
-- for the applications of a KFDef. `configMapGenerator` stands in LegacyKustomizations/Generators, the
-- rewriting of paths in LegacyKustomizations/Rewrite. `os.path.abspath` is left to the caller, who gives
-- the root and the test directory as absolute paths, and log lines are left out.
pub mod Generators
pub mod Rewrite
pub mod Paths
pub mod Within
pub mod Copies
mod Tests
use test_minio.Base.{
  String, Bool, true, false, List, [], ◌∷◌, ok, value_error, Dict, elem, if◌then◌else◌, ◌==◌, ℕ,
}
use test_minio.Base.Value.{Value, Fields, dict, put, remove, arr}
use test_minio.Base.Text.{begins_with}
use test_minio.Base.FilePath.{path_join, dirname}
use test_minio.Base.Exec.{Exec, pure, raise, lift, gets, ◌>>=◌, ◌>>◌}
use test_minio.Host.{Host, Actions, make_dirs, write, act, for_each}
use Generators.{GeneratorFiles, build_configmap_generators, write_generators}
use Rewrite.{apps_of, num_parents, rewrite_kustomization}

abbrev pub apps_to_skip : List String
apps_to_skip = "mysql" ∷ "minio" ∷ []

-- The kustomization to be written: with the generators, and without secrets.
pub finished : Fields → List Value → Value
unfolding put remove
finished kustomization gs =
    dict (remove "secretGenerator" (put "configMapGenerator" (arr gs) kustomization))

module _ (host : Host) where
  -- if not os.path.exists(app_test_dir): os.makedirs(app_test_dir)
  pub ensure_dir : String → Exec Actions (Unit {0})
  ensure_dir app_test_dir s =
      if host.exists s app_test_dir then (ok tt, s) else act host (make_dirs app_test_dir) s

  -- writing the new kustomization
  pub write_kustomization : String → Fields → List Value → Exec Actions (Unit {0})
  unfolding path_join finished
  write_kustomization app_test_dir kustomization gs =
      act host (write (path_join app_test_dir "kustomization.yaml") (finished kustomization gs))

  -- writing the generators and the new kustomization
  pub write_app : String → Fields → GeneratorFiles → Exec Actions (Unit {0})
  unfolding ensure_dir write_generators write_kustomization
  write_app app_test_dir kustomization generators =
      ensure_dir app_test_dir
      >> (write_generators host app_test_dir 0 generators
          >>= write_kustomization app_test_dir kustomization)

  module _ (test_path kustomize_dir : String) (apps : Dict Value) (n : ℕ) where
    -- the generators and what is written
    pub patch_app : String → Fields → Exec Actions (Unit {0})
    unfolding path_join build_configmap_generators write_app
    patch_app d kustomization =
        build_configmap_generators host (path_join (path_join kustomize_dir d) "base")
        >>= write_app (path_join test_path d) kustomization

    -- the paths, the generators and what is written
    pub rewrite_app : String → Value → Exec Actions (Unit {0})
    unfolding rewrite_kustomization patch_app
    rewrite_app d kustomization =
        lift (rewrite_kustomization apps d n kustomization) >>= patch_app d

    -- the kustomization of one application
    pub generate_app : String → Exec Actions (Unit {0})
    unfolding path_join rewrite_app
    generate_app d =
        gets (λ s. host.load s (path_join (path_join kustomize_dir d) "kustomization.yaml"))
        >>= rewrite_app d

    -- the body of the loop over the directories
    pub generate_dir : String → Exec Actions (Unit {0})
    unfolding elem generate_app path_join
    generate_dir d s =
        if elem d apps_to_skip
        then (ok tt, s)
        else if host.exists s (path_join (path_join kustomize_dir d) "kustomization.yaml")
        then generate_app d s
        else (ok tt, s)

  -- the loop over the directories
  pub generate_dirs : String → ℕ → String → Dict Value → Exec Actions (Unit {0})
  unfolding generate_dir path_join
  generate_dirs test_path n kustomize_dir apps = gets (λ s. host.list_dir s kustomize_dir) >>= λ ds.
      for_each (generate_dir test_path kustomize_dir apps n) ds

  -- GenerateLegacyTests.generate, with the root of the repository
  pub generate : String → String → String → Exec Actions (Unit {0})
  unfolding begins_with apps_of dirname path_join generate_dirs num_parents
  generate kfdef repo_root test_path =
      if begins_with test_path repo_root
      then (gets (λ s. host.load s kfdef) >>= λ kfdef_spec. lift (apps_of kfdef_spec) >>= λ apps.
          generate_dirs test_path (num_parents repo_root test_path)
            (path_join (dirname kfdef) "kustomize") apps)
      else raise value_error
