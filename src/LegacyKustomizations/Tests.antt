-- ===== src/LegacyKustomizations/Tests.antt =====
-- Runs on a small repository, and the theorems at concrete inputs.
use test_minio.Base.{
  ℕ, zero, suc, String, ◌==◌, ◌≡◌, refl, Bool, true, false, List, [], ◌∷◌, ◌++◌, Result, ok, err,
  os_error, key_error, value_error, Dict, lookup, Option, none, some, if◌then◌else◌, IsUnique, All,
  arith, subst, ok-injective, ◌<>◌,
}
use test_minio.Base.Value.{Value, Fields, str, dict, arr, obj, num}
use test_minio.Base.Text.Split.{glue}
use test_minio.Base.FilePath.{path_join, is_absolute, ends_with_slash}
use test_minio.Host.{Host, make_dirs, copy, write}
use test_minio.LegacyKustomizations.{generate}
use test_minio.LegacyKustomizations.Generators.{GeneratorFiles, write_generators, merged}
use test_minio.LegacyKustomizations.Rewrite.{num_parents, rewrite_path}
use test_minio.LegacyKustomizations.Paths.{place}
use test_minio.LegacyKustomizations.Paths.Resolve.{rewrite_path-place, IsName}
use test_minio.LegacyKustomizations.Within.{within, generate-Within}
use test_minio.LegacyKustomizations.Copies.{
  numbered, all_files, copied_to, listed, write_generators-Copies,
}

plain_tests : IsName "tests"
plain_tests = grind arith

plain_legacy : IsName "legacy"
plain_legacy = grind arith

plain_jupyter : IsName "jupyter"
plain_jupyter = grind arith

abbrev read_file : Dict Value → String → Result Value
read_file files p = elim (lookup p files) [ none ↦ err os_error | some v ↦ ok v ]

abbrev kfdef_document : Value
kfdef_document = obj (
    (
      "spec",
      obj (
          (
            "applications",
            arr (
                obj (
                  ("name", str "jupyter")
                  ∷ (
                    "kustomizeConfig",
                    obj (("repoRef", obj (("path", str "jupyter/web-app") ∷ [])) ∷ []),
                  )
                  ∷ [])
                ∷ []),
          )
          ∷ []),
    )
    ∷ [])

abbrev jupyter_document : Value
jupyter_document = obj (("resources", arr (str "base" ∷ [])) ∷ ("secretGenerator", arr []) ∷ [])

abbrev jupyter_base : Value
jupyter_base = obj (
    ("configMapGenerator", arr (obj (("name", str "ui") ∷ ("env", str "params.env") ∷ []) ∷ []))
    ∷ [])

abbrev repository_files : Dict Value
repository_files =
    ("/kf/kfdef.yaml", kfdef_document)
    ∷ ("/kf/kustomize/jupyter/kustomization.yaml", jupyter_document)
    ∷ ("/kf/kustomize/jupyter/base/kustomization.yaml", jupyter_base)
    ∷ ("/kf/kustomize/other/kustomization.yaml", jupyter_document)
    ∷ []

-- A machine with these files, and the given directories in /kf/kustomize.
abbrev machine : List String → Host
machine ds = record {
  exists = λ s p. elim (lookup p repository_files) [ none ↦ false | some v ↦ true ];
  is_dir = λ s p. false;
  list_dir = λ s p. ok ds;
  walk = λ s p. [];
  make_temp = λ s. ok "/tmp";
  check_output = λ s argv. ok "";
  load = λ s p. read_file repository_files p;
  perform = λ s a. ok tt;
}

abbrev jupyter_written : Value
jupyter_written = obj (
    ("resources", arr (str "../../../../jupyter/web-app/base" ∷ []))
    ∷ ("bases", arr [])
    ∷ ("configurations", arr [])
    ∷ ("patches", arr [])
    ∷ ("patchesStrategicMerge", arr [])
    ∷ (
      "configMapGenerator",
      arr (
          obj (
            ("name", str "ui")
            ∷ ("envs", arr (str "params_0.env" ∷ []))
            ∷ ("behavior", str "merge")
            ∷ [])
          ∷ []),
    )
    ∷ [])

generate_jupyter :
    generate
      (machine ("mysql" ∷ "jupyter" ∷ []))
      "/kf/kfdef.yaml"
      "/repo"
      "/repo/tests/legacy_kustomizations/x"
      []
    ≡ (
      ok tt,
      write "/repo/tests/legacy_kustomizations/x/jupyter/kustomization.yaml" jupyter_written
          ∷ copy "/kf/kustomize/jupyter/base/params.env"
              "/repo/tests/legacy_kustomizations/x/jupyter/params_0.env"
          ∷ make_dirs "/repo/tests/legacy_kustomizations/x/jupyter"
          ∷ [],
    )
unfolding generate lookup test_minio.Base.Value.find rewrite_path
generate_jupyter = refl

-- A directory that is no application, and a test directory that is elsewhere.
generate_other :
    (generate (machine ("other" ∷ [])) "/kf/kfdef.yaml" "/repo" "/repo/tests" []).0 ≡ err key_error
unfolding generate lookup test_minio.Base.Value.find rewrite_path
generate_other = refl

generate_elsewhere :
    generate (machine []) "/kf/kfdef.yaml" "/repo" "/tmp" [] ≡ (err value_error, [])
unfolding generate
generate_elsewhere = refl

rewrite_path-place_example :
    place (path_join ("/repo" <> glue "/" ("tests" ∷ "legacy" ∷ [])) "jupyter") (
      rewrite_path
        (num_parents "/repo" ("/repo" <> glue "/" ("tests" ∷ "legacy" ∷ [])))
        "jupyter/web-app"
        "../base/")
    ≡ place "/repo" (path_join "jupyter/web-app" "../base/")
unfolding ends_with_slash
rewrite_path-place_example =
    rewrite_path-place "/repo" "jupyter" "jupyter/web-app" "../base/" ("tests" ∷ "legacy" ∷ [])
      (refl, refl) (plain_tests, (plain_legacy, tt)) plain_jupyter refl refl

generate-Within_example :
    All
      (λ a. within "/repo/tests" a ≡ true)
      (generate (machine ("jupyter" ∷ "other" ∷ [])) "/kf/kfdef.yaml" "/repo" "/repo/tests" []).1
generate-Within_example =
    generate-Within (machine ("jupyter" ∷ "other" ∷ [])) "/kf/kfdef.yaml" "/repo" "/repo/tests"
      (λ s ds h.
        subst (All (λ d. is_absolute d ≡ false)) (ok-injective ("jupyter" ∷ "other" ∷ []) ds h)
          (refl, (refl, tt)))
      [] tt

abbrev two_generators : GeneratorFiles
two_generators = (str "a", "base/x.env" ∷ "base/y.env" ∷ []) ∷ (str "b", "base/x.env" ∷ []) ∷ []

write_generators-Copies_example :
    (merged (machine []) "/t" (str "a") ("params_0.env" ∷ "params_1.env" ∷ [])
        ∷ merged (machine []) "/t" (str "b") ("params_2.env" ∷ [])
        ∷ []
      ≡ listed (machine []) "/t" 0 two_generators)
    × ((write_generators (machine []) "/t" 0 two_generators []).1
        ≡ copied_to (machine []) "/t" 0 (all_files two_generators) [])
    × IsUnique (numbered 0 (all_files two_generators))
unfolding write_generators test_minio.Base.Text.chr
write_generators-Copies_example =
    write_generators-Copies (machine []) "/t" two_generators []
      (merged (machine []) "/t" (str "a") ("params_0.env" ∷ "params_1.env" ∷ [])
        ∷ merged (machine []) "/t" (str "b") ("params_2.env" ∷ [])
        ∷ [])
      refl
