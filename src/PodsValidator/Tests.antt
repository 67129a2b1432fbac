-- ===== src/PodsValidator/Tests.antt =====
-- Runs of the validator, and the theorems at concrete pods.
use test_minio.Base.{
  All, not, ◌&&◌, ◌||◌, String, ◌≡◌, refl, true, false, Bool, none, some, List, [], ◌∷◌, Result, ok,
  err, exit_status, length, arith, elem, ◌==◌, if◌then◌else◌, map,
}
use test_minio.Base.Text.{begins_with}
use test_minio.PodsValidator.{
  Pod, is_up, first_ready, remove_template, remove_templates, all_pods, main, pods_templates,
}
use test_minio.PodsValidator.Missing.{up_names, IsClear, is_hit, missing}
use test_minio.PodsValidator.Status.{main-missing, main_complete}

abbrev running : String → Bool → Pod
running pod_name ready = record {
  name = pod_name;
  phase = "Running";
  container_statuses = some (ready ∷ []);
}

-- One pod that is up and one that is not.
abbrev listing : String → Result (List Pod)
listing namespace =
    if namespace == "auth"
    then ok (running "dex-5d9f" true ∷ [])
    else if namespace == "kubeflow"
    then ok (running "minio-7c8b" false ∷ [])
    else ok []

abbrev listed : List Pod
listed = running "minio-7c8b" false ∷ running "dex-5d9f" true ∷ []

names_ : up_names listed ≡ ok ("dex-5d9f" ∷ [])
unfolding up_names is_up first_ready
names_ = refl

abbrev no_other : List String → String → Bool
no_other [] name = true
no_other (t ∷ ts) name = not (begins_with name t) && no_other ts name

no_other-All :
    (ts : List String) (name : String)
    → no_other ts name ≡ true
    → All (λ other. begins_with name other ≡ false) ts
no_other-All [] name h = tt
no_other-All (t ∷ ts) name h = (ground arith, no_other-All ts name (ground arith))

-- a test for IsClear
abbrev clear : List String → String → Bool
clear [] name = true
clear (t ∷ ts) name = (not (begins_with name t) || no_other ts name) && clear ts name

clear-IsClear : (ts : List String) (name : String) → clear ts name ≡ true → IsClear ts name
clear-IsClear [] name h = tt
clear-IsClear (t ∷ ts) name h =
    (λ y. no_other-All ts name (ground arith), clear-IsClear ts name (ground arith))

main-missing_example :
    main listing ≡ err (exit_status (length (missing ("dex-5d9f" ∷ []) pods_templates)))
main-missing_example =
    main-missing listing listed ("dex-5d9f" ∷ []) (unfold all_pods in refl) names_
      (clear-IsClear pods_templates "dex-5d9f" (unfold begins_with in refl), tt)

run : main listing ≡ err (exit_status 38)
unfolding main all_pods remove_templates is_up first_ready remove_template begins_with
run = refl

-- Every template as the name of a pod that has succeeded.
abbrev complete : String → Result (List Pod)
complete namespace =
    if namespace == "kubeflow"
    then ok (
        map (λ t. record { name = t; phase = "Succeeded"; container_statuses = none })
          pods_templates)
    else ok []

run_complete : main complete ≡ err (exit_status 0)
unfolding main all_pods remove_templates is_up first_ready remove_template begins_with
run_complete = refl

main_complete_example :
    (names : List String) × (up_names (
        map
          (λ t. record { name = t; phase = "Succeeded"; container_statuses = none })
          pods_templates)
      ≡ ok names)
    × (is_hit names "dex-" ≡ true)
main_complete_example =
    main_complete complete
      (map (λ t. record { name = t; phase = "Succeeded"; container_statuses = none })
        pods_templates)
      "dex-" (unfold all_pods in refl) run_complete (unfold elem in refl)

-- Two pods of the user interface: the second is taken for the pipeline server, whose template is a
-- beginning of its name.
second_replica :
    remove_templates
      (running "ml-pipeline-ui-1" true ∷ running "ml-pipeline-ui-2" true ∷ [])
      ("ml-pipeline-ui-" ∷ "ml-pipeline-" ∷ [])
    ≡ ok []
unfolding remove_templates is_up first_ready remove_template begins_with
second_replica = refl
