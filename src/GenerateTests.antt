-- ===== src/GenerateTests.antt =====
-- hack/generate_tests.py: a Go test for each kustomize package, with the output that is expected of it.
-- `os.path.relpath` and `basename`, the template of the test (jinja2) and the environment are
-- parameters, and so is the order in which Python walks a set. Log lines are left out.
mod Package
mod Tests
use Prim.Native.Nat.{ℕ, suc}
use test_minio.Base.{
  String, ◌==◌, Option, none, some, List, [], ◌∷◌, ◌++◌, map, ok, if◌then◌else◌, elem, length,
}
use test_minio.Base.Text.{strip, split, replace_char}
use test_minio.Base.FilePath.{path_join}
use test_minio.Base.Exec.{Exec, gets, ◌>>=◌, ◌>>◌}
use test_minio.Host.{Host, Actions, make_dirs, remove_tree, run, write_text, act, for_each}
use test_minio.LegacyKustomizations.Rewrite.{parents, join_pieces}

abbrev pub search_dirs : List String
search_dirs = "stacks" ∷ "tests/legacy_kustomizations" ∷ "katib/installs" ∷ []

abbrev pub kustomize_output_dir : String
kustomize_output_dir = "test_data/expected"

abbrev pub test_name : String
test_name = "kustomize_test.go"

-- os.path.join(repo_root, "tests", rpath)
pub test_dir : String → String → String
unfolding path_join
test_dir repo_root rpath = path_join (path_join repo_root "tests") rpath

pub generate_test_path : String → String → String
unfolding test_dir path_join
generate_test_path repo_root kustomize_rpath =
    path_join (test_dir repo_root kustomize_rpath) test_name

-- changed_dirs.add(child)
pub add_dir : String → List String → List String
add_dir child changed_dirs =
    if elem child changed_dirs then changed_dirs else changed_dirs ++ child ∷ []

-- the loop over what `os.walk` gives, each directory with the names of its files
pub kustomize_dirs : List String → List (String × List String) → List String
unfolding add_dir elem
kustomize_dirs changed_dirs [] = changed_dirs
kustomize_dirs changed_dirs ((child, files) ∷ walk) =
    kustomize_dirs
      (if elem "kustomization.yaml" files then add_dir child changed_dirs else changed_dirs) walk

-- find_kustomize_dirs, by what `os.walk` gives for each directory
pub find_kustomize_dirs :
    (String → List (String × List String)) → List String → List String → List String
unfolding kustomize_dirs
find_kustomize_dirs walk changed_dirs [] = changed_dirs
find_kustomize_dirs walk changed_dirs (s ∷ dirs) =
    find_kustomize_dirs walk (kustomize_dirs changed_dirs (walk s)) dirs

-- The path from the test of a package to the package.
pub package_dir : String → String
unfolding parents join_pieces split
package_dir rpath = join_pieces (parents (length (split rpath "/")) ++ ".." ∷ rpath ∷ [])

-- What the script calls: `os.path.relpath(dir, repo_root)`, `os.path.basename`, the template by the
-- name and the path of the package, the command of kustomize, the files below a directory, and the
-- order in which a set is walked.
pub record Calls : Type 0 where
  pub relpath : String → String → String
  pub basename : String → String
  pub render : String → String → String
  pub kustomize_bin : String
  pub walk : String → List (String × List String)
  pub order : List String → List String

module _ (host : Host) (calls : Calls) where
  -- Any previous output is removed.
  pub clear_output : String → Exec Actions (Unit {0})
  clear_output output_dir s =
      if host.exists s output_dir then act host (remove_tree output_dir) s else (ok tt, s)

  pub run_kustomize_build : String → String → Exec Actions (Unit {0})
  unfolding clear_output test_dir path_join
  run_kustomize_build repo_root source =
      let output_dir =
        path_join (test_dir repo_root (calls.relpath source repo_root)) kustomize_output_dir in
      clear_output output_dir
      >> (act host (make_dirs output_dir)
          >> act host (
              run
                (calls.kustomize_bin ∷ "build" ∷ "--load_restrictor" ∷ "none" ∷ "-o" ∷ output_dir
                  ∷ [])
                (some (path_join repo_root source))))

  pub write_go_test : String → String → String → Exec Actions (Unit {0})
  write_go_test test_path package_name path =
      act host (write_text test_path (calls.render package_name path))

  -- the body of the loop over the packages
  pub generate_test : String → String → Exec Actions (Unit {0})
  unfolding run_kustomize_build write_go_test generate_test_path replace_char package_dir
  generate_test repo_root full_dir =
      let rpath = calls.relpath full_dir repo_root in
      run_kustomize_build repo_root full_dir
      >> write_go_test (generate_test_path repo_root rpath)
          (replace_char b'-' "_" (calls.basename full_dir)) (package_dir rpath)

  -- the script in the repository
  pub generate_tests : String → Exec Actions (Unit {0})
  unfolding generate_test find_kustomize_dirs path_join
  generate_tests repo_root = for_each (generate_test repo_root) (
      calls.order
        (find_kustomize_dirs calls.walk [] (map (λ s. path_join repo_root s) search_dirs)))

  -- the script
  pub regenerate : Exec Actions (Unit {0})
  unfolding strip generate_tests
  regenerate =
      gets (λ s. host.check_output s ("git" ∷ "rev-parse" ∷ "--show-toplevel" ∷ [])) >>= λ out.
      generate_tests (strip out)
