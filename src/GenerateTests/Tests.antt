-- ===== src/GenerateTests/Tests.antt =====
-- A run of the script on a small repository, and the theorem at one package.
use test_minio.Base.{
  ◌<>◌, ◌==◌, ◌≡◌, refl, true, some, [], ◌∷◌, ok, err, os_error, if◌then◌else◌, arith,
}
use test_minio.Base.Text.{from_index}
use test_minio.Base.FilePath.{ends_with_slash}
use test_minio.Host.{Host, make_dirs, remove_tree, run, write_text}
use test_minio.LegacyKustomizations.Paths.{place}
use test_minio.LegacyKustomizations.Paths.Resolve.{IsName}
use test_minio.GenerateTests.{Calls, package_dir, test_dir, regenerate}
use test_minio.GenerateTests.Package.{package_dir-place}

-- A repository in /r, with the output of an earlier run.
abbrev repository : Host
repository = record {
  exists = λ s p. true;
  is_dir = λ s p. true;
  list_dir = λ s p. ok [];
  walk = λ s p. [];
  make_temp = λ s. ok "/tmp";
  check_output = λ s argv. ok "/r\n";
  load = λ s p. err os_error;
  perform = λ s a. ok tt;
}

-- One package, in /r/stacks/aws-base.
abbrev one_package : Calls
one_package = record {
  relpath = λ p root. from_index 3 p;
  basename = λ p. from_index 10 p;
  render = λ name path. name <> (" " <> path);
  kustomize_bin = "kustomize";
  walk = λ p.
      if p == "/r/stacks"
      then (p, "README.md" ∷ []) ∷ ("/r/stacks/aws-base", "kustomization.yaml" ∷ []) ∷ []
      else [];
  order = λ dirs. dirs;
}

one_package_tested : regenerate repository one_package [] ≡ (
  ok tt,
  write_text "/r/tests/stacks/aws-base/kustomize_test.go" "aws_base ../../../stacks/aws-base"
      ∷ run
          ("kustomize" ∷ "build" ∷ "--load_restrictor" ∷ "none" ∷ "-o"
            ∷ "/r/tests/stacks/aws-base/test_data/expected" ∷ [])
          (some "/r/stacks/aws-base")
      ∷ make_dirs "/r/tests/stacks/aws-base/test_data/expected"
      ∷ remove_tree "/r/tests/stacks/aws-base/test_data/expected"
      ∷ [],
)
unfolding regenerate from_index
one_package_tested = refl

plain_stacks : IsName "stacks"
plain_stacks = grind arith

plain_aws : IsName "aws"
plain_aws = grind arith

package_dir-place_example :
    place (test_dir "/r" "stacks/aws") (package_dir "stacks/aws") ≡ place "/r" "stacks/aws"
unfolding ends_with_slash
package_dir-place_example =
    package_dir-place "/r" "stacks" ("aws" ∷ []) (refl, refl) plain_stacks (plain_aws, tt)
