-- ===== src/MinioConfig/Tests.antt =====
-- Runs of the script on a cluster in memory, and the theorems at concrete clusters.
use test_minio.Base.{
  ℕ, String, ◌≡◌, ◌⊎◌, refl, ok, err, Result, Dict, [], ◌∷◌, ◌++◌, lookup, insert, some, arith,
  api_exception, system_exit, All, ap,
}
use test_minio.Base.Value.{Value, str}
use test_minio.Base64.{b64encode}
use test_minio.Base64.Codec.{ascii_encode, ascii_decode}
use test_minio.Base64.Bytes.{b2a, alphabet}
use test_minio.Cluster.{Cluster, Secret}
use test_minio.Cluster.Memory.{memory, memory-IsLawful, Store}
use test_minio.MinioConfig.{
  minio_secret_name, minio_secret_namespace, required_fields, general_minio_secret_name,
  general_minio_secret_namespace, is_missing, check_fields, check_secret, encode_value,
  encode_config, default_data, recover, read_data, create, main,
}
use test_minio.MinioConfig.Encode.{Decodes}
use test_minio.MinioConfig.Run.{
  general_secret, IsComplete, HasField, fields_of_minio, Creates, Exits, Refuses, main-Refuses,
  main_found, main_default, main_publishes, read_data_sound,
}

abbrev environ : Dict String
environ = ("EXTERNAL_MINIO_CONFIG_SECRET_NAME", "") ∷ []

abbrev config : Result (Dict Value)
config = ok (("host", str "minio") ∷ ("port", str "9000") ∷ [])

abbrev parameters : Dict String
parameters =
    ("host", "aA==")
    ∷ ("port", "OTAwMA==")
    ∷ ("secure", "dHJ1ZQ==")
    ∷ ("accesskey", "YQ==")
    ∷ ("secretkey", "Yg==")
    ∷ []

abbrev external : Store
external = ("kubeflow-minio/kubeflow-external-minio", parameters) ∷ []

run_external :
    main memory environ config external
    ≡ (ok tt, external ++ (("kubeflow/minio-params", parameters) ∷ []))
unfolding main read_data general_minio_secret_name general_minio_secret_namespace is_missing
    check_fields check_secret recover create lookup insert
run_external = refl

run_default :
    main memory environ config []
    ≡ (ok tt, ("kubeflow/minio-params", ("host", "bWluaW8=") ∷ ("port", "OTAwMA==") ∷ []) ∷ [])
unfolding main read_data general_minio_secret_name general_minio_secret_namespace encode_value
    encode_config default_data recover create lookup insert b64encode ascii_encode ascii_decode b2a
    alphabet
run_default = refl

abbrev incomplete : Store
incomplete = ("kubeflow-minio/kubeflow-external-minio", ("host", "aA==") ∷ ("port", "") ∷ []) ∷ []

main_found_example :
    (All (HasField (("host", "aA==") ∷ ("port", "") ∷ [])) fields_of_minio
      × Creates memory environ config incomplete (("host", "aA==") ∷ ("port", "") ∷ []))
    ⊎ Exits memory environ config incomplete (("host", "aA==") ∷ ("port", "") ∷ [])
unfolding general_minio_secret_name general_minio_secret_namespace lookup
main_found_example =
    main_found memory environ config incomplete (("host", "aA==") ∷ ("port", "") ∷ []) refl

run_incomplete : main memory environ config incomplete ≡ (
  err (system_exit "Secret was read successfully, but is invalid. Missing field \"port\""),
  incomplete,
)
unfolding main read_data general_minio_secret_name general_minio_secret_namespace is_missing
    check_fields check_secret recover lookup
run_incomplete = refl

main_default_example :
    (d : Dict String) × (main memory environ config [] ≡ create memory environ config d [])
    × Decodes d (("host", str "minio") ∷ ("port", str "9000") ∷ [])
unfolding general_minio_secret_name general_minio_secret_namespace lookup
main_default_example =
    main_default memory environ config [] (("host", str "minio") ∷ ("port", str "9000") ∷ []) refl
      refl (omega arith)

main_publishes_example :
    (d : Dict String) × (read_data memory environ config external ≡ ok d)
    × (memory.read_namespaced_secret
          (main memory environ config external).1
          minio_secret_name
          minio_secret_namespace
        ≡ ok (record { data_ = some d }))
unfolding main read_data general_minio_secret_name general_minio_secret_namespace is_missing
    check_fields check_secret recover create lookup insert
main_publishes_example = main_publishes memory environ config memory-IsLawful external refl

read_data_sound_example :
    IsComplete parameters required_fields
    ⊎ ((general_secret memory environ config external ≡ err (api_exception 404))
        × (default_data config ≡ ok parameters))
unfolding main read_data general_minio_secret_name general_minio_secret_namespace is_missing
    check_fields check_secret recover create lookup insert
read_data_sound_example = read_data_sound memory environ config external parameters refl

-- A cluster that forbids the reading of secrets.
abbrev forbidding : Cluster
forbidding = record memory { read_namespaced_secret = λ s name namespace. err (api_exception 403) }

abbrev status_of : Result Secret → ℕ
status_of (err (api_exception status)) = status
status_of _ = 0

main-Refuses_example : Refuses forbidding environ config external
main-Refuses_example =
    main-Refuses forbidding environ config external (λ q. omega (arith, ap status_of q))
      (λ u. cc u.1)
