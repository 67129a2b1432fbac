-- ===== src/MinioConfig.antt =====
-- bootstrap/components/minio-config/entrypoint.py: copy the parameters of an external MinIO from
-- its secret, or those of the default MinIO from default_config.json, into the secret
-- kubeflow/minio-params. `config` is what `json.load` gives for the file next to the script, or the
-- error of opening or parsing it. The connection to the cluster and the printed progress are left
-- out.
mod Tests
pub mod Run
pub mod Encode
use test_minio.Base.{
  String, Bool, true, false, ◌&&◌, not, Option, none, some, List, [], ◌∷◌, ◌<>◌, Error, Result, ok,
  err, type_error, attribute_error, system_exit, exit_error, api_exception, ◌>>=◌ as bind, Dict,
  lookup, ◌==◌, ◌=ℕ=◌, if◌then◌else◌,
}
use test_minio.Base.Value.{Value, str}
use test_minio.Base.Exec.{Exec, pure, raise, lift, gets, continue, ◌>>=◌}
use test_minio.Base64.{b64encode}
use test_minio.Cluster.{Cluster, Secret, NewSecret}
use test_minio.Environ.{env_or}

abbrev pub minio_secret_name : String
minio_secret_name = "minio-params"

abbrev pub minio_secret_namespace : String
minio_secret_namespace = "kubeflow"

abbrev pub required_fields : List String
required_fields = "host" ∷ "port" ∷ "secure" ∷ "accesskey" ∷ "secretkey" ∷ []

pub general_minio_secret_name : Dict String → String
unfolding env_or
general_minio_secret_name environ =
    env_or environ "EXTERNAL_MINIO_CONFIG_SECRET_NAME" "kubeflow-external-minio"

pub general_minio_secret_namespace : Dict String → String
unfolding env_or
general_minio_secret_namespace environ =
    env_or environ "EXTERNAL_MINIO_CONFIG_SECRET_NAMESPACE" "kubeflow-minio"

-- `field not in data or not data[field]`
pub is_missing : Dict String → String → Bool
is_missing data_ f = elim (lookup f data_) [ none ↦ true | some v ↦ v == "" ]

abbrev pub missing_message : String → String
missing_message f = "Secret was read successfully, but is invalid. Missing field \"" <> f <> "\""

-- the loop over `required_fields`
pub check_fields : List String → Dict String → Result (Dict String)
check_fields [] data_ = ok data_
check_fields (f ∷ rest) data_ =
    if is_missing data_ f then err (system_exit (missing_message f)) else check_fields rest data_

-- `field not in None` raises `TypeError`
pub check_secret : Secret → Result (Dict String)
check_secret secret = elim secret.data_ [
  | none ↦ err type_error
  | some data_ ↦ check_fields required_fields data_
]

-- `b64encode(data[field])`: only a text has `encode`
pub encode_value : Value → Result String
encode_value (str s) = b64encode s
encode_value _ = err attribute_error

-- the loop over `data.keys()`, which writes each value back in its place
pub encode_config : Dict Value → Result (Dict String)
encode_config [] = ok []
encode_config ((k, v) ∷ rest) =
    bind (encode_value v) λ t. bind (encode_config rest) λ d. ok ((k, t) ∷ d)

-- The handler of `ApiException`. Where the file cannot be loaded, the message is built by adding an
-- exception to a text, which raises `TypeError`.
pub default_data : Result (Dict Value) → Result (Dict String)
default_data (ok config) = encode_config config
default_data (err e) = err type_error

module _ (C : Cluster) (environ : Dict String) (config : Result (Dict Value)) where
  pub recover : Result (Dict String) → Result (Dict String)
  recover (err (api_exception status)) =
      if status =ℕ= 404 then default_data config else err (exit_error (api_exception status))
  recover r = r

  -- the first `try`
  pub read_data : C.State → Result (Dict String)
  unfolding recover
  read_data s = recover (
      bind
        (C.read_namespaced_secret s (general_minio_secret_name environ)
          (general_minio_secret_namespace environ))
        check_secret)

  -- the second `try`: an `ApiException` ends the script with a message, anything else is not caught
  pub exit_on_api : Result (Unit {0}) → Result (Unit {0})
  exit_on_api (err (api_exception status)) =
      err (system_exit ("Error while creating secret: " <> C.error_text status))
  exit_on_api r = r

  unfoldable pub create : Dict String → Exec C.State (Unit {0})
  unfolding exit_on_api
  create data_ s =
      let (r, s') =
        C.create_namespaced_secret s minio_secret_namespace
          (record { name = minio_secret_name; secret_type = "Opaque"; content = data_ }) in
      (exit_on_api r, s')

  -- the script
  unfoldable pub main : Exec C.State (Unit {0})
  main = do data_ ← gets read_data; create data_
