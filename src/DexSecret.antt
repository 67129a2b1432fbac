-- ===== src/DexSecret.antt =====
-- bootstrap/components/dex-secret-ldap/entrypoint.py: write the configuration of Dex, with a
-- connector to LDAP or Active Directory that is built from the authentication secret, into the
-- secret auth/dex-config-secret. `template` is what `yaml.safe_load` gives for template.yaml, and
-- `dump` is `yaml.dump`; PyYAML is a third-party package. The connection to the cluster and the
-- printed progress are left out.
mod Tests
pub mod Reading
pub mod Groups
pub mod Connector
pub mod Secrecy
pub mod Publish
use test_minio.Base.{
  String, true, false, List, [], ◌∷◌, Error, Result, ok, err, exception, exit_error, api_exception,
  ◌>>=◌ as bind, Dict, ◌==◌, ◌=ℕ=◌, if◌then◌else◌,
}
use test_minio.Base.Value.{Value, bool, str, arr, obj, set_path}
use test_minio.Base.Exec.{Exec, raise, lift, gets, continue, ◌>>=◌, ◌>>◌}
use test_minio.Base64.{b64encode}
use test_minio.Cluster.{Cluster, Secret, NewSecret}
use test_minio.Environ.{env_or}
use Reading.{AuthTypeInfo, get_auth_type_info}
use Connector.{get_connector_for_ldap, get_connector_for_ad, dex_config_secret_bind_pw}

abbrev pub dex_config_secret_name : String
dex_config_secret_name = "dex-config-secret"

abbrev pub dex_config_secret_namespace : String
dex_config_secret_namespace = "auth"

pub auth_secret_name : Dict String → String
unfolding env_or
auth_secret_name environ = env_or environ "AUTH_SECRET_NAME" "hpecp-ext-auth-secret"

pub auth_secret_namespace : Dict String → String
unfolding env_or
auth_secret_namespace environ = env_or environ "AUTH_SECRET_NAMESPACE" "hpecp"

pub get_connector : Secret → AuthTypeInfo → Result (Value × String)
get_connector secret info =
    if info.directory_server == "LDAP"
    then get_connector_for_ldap secret info ""
    else if info.directory_server == "Active Directory"
    then get_connector_for_ad secret info ""
    else err (exception "Unsupported directory server")

-- the configuration of Dex, with the global `auth_secret_bind_pw`
abbrev pub Config : Type 0
Config = Value × String

-- the body of the first `try`, behind the reading of the secret
pub configured : Value → Secret → Result Config
configured template secret = bind (get_auth_type_info secret) λ info.
    bind (get_connector secret info) λ built.
      bind (set_path ("connectors" ∷ []) (arr (built.0 ∷ [])) template)
        λ config. ok (config, built.1)

abbrev pub static_passwords : Value
static_passwords = obj (
    ("email", str "admin@kubeflow.org")
    ∷ ("hash", str "$2y$12$ruoM7FqXrpVgaol44eRZW.4HWS8SAvg6KYVVSCIwKQPBmTpCm.EeO")
    ∷ ("username", str "admin")
    ∷ ("userID", str "08a8684b-db88-4b73-90a9-3cd1661f5466")
    ∷ [])

-- its handler, where the secret was not found
unfoldable pub without_authentication : Value → Result Config
without_authentication template =
    bind (set_path ("enablePasswordDB" ∷ []) (bool true) template) λ c.
      bind (set_path ("staticPasswords" ∷ []) (arr (static_passwords ∷ [])) c)
        λ config. ok (config, "")

pub handle_read : Value → Result Config → Result Config
handle_read template (err (api_exception status)) =
    if status =ℕ= 404
    then without_authentication template
    else err (exit_error (api_exception status))
handle_read template r = r

-- the second `try`: only a 404 goes on
pub check_absent : Result Secret → Result (Unit {0})
check_absent (ok secret) = err (exception "Dex config secret already exists!")
check_absent (err (api_exception status)) =
    if status =ℕ= 404 then ok tt else err (exit_error (api_exception status))
check_absent (err e) = err e

module _ (C : Cluster) (environ : Dict String) (template : Value) (dump : Value → String) where
  pub read_config : C.State → Result Config
  read_config s = handle_read template (
      bind (C.read_namespaced_secret s (auth_secret_name environ) (auth_secret_namespace environ))
        (configured template))

  pub secret_body : Config → Result NewSecret
  secret_body config = bind (b64encode (dump config.0)) λ text. bind (b64encode config.1) λ pw.
      ok (record {
        name = dex_config_secret_name;
        secret_type = "Opaque";
        content = ("config.yaml", text) ∷ (dex_config_secret_bind_pw, pw) ∷ [];
      })

  -- the script
  unfoldable pub main : Exec C.State (Unit {0})
  main = do
    config ← gets read_config
    gets (λ s.
        check_absent
          (C.read_namespaced_secret s dex_config_secret_name dex_config_secret_namespace))
    body ← lift (secret_body config)
    λ s. C.create_namespaced_secret s dex_config_secret_namespace body
