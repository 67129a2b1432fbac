-- ===== src/DexSecret/Connector.antt =====
-- The functions that fill the connector, and the connectors for LDAP and Active Directory.
pub mod Config
pub mod Secrecy
use test_minio.Base.{
  String, Option, none, some, List, [], ◌∷◌, true, false, ◌<>◌, Result, ok, err, system_exit, ◌>>=◌,
  ◌==◌, if◌then◌else◌, Dict,
}
use test_minio.Base.Value.{Value, bool, str, obj, set_path}
use test_minio.Base64.{b64decode}
use test_minio.Cluster.{Secret}
use test_minio.DexSecret.Reading.{
  secret_get, require, require_decoded, AuthTypeInfo, get_auth_type_info,
}
use test_minio.DexSecret.Groups.{get_group_search_configured}

abbrev pub dex_config_secret_bind_pw : String
dex_config_secret_bind_pw = "AUTH_SECRET_BIND_PW"

-- connector['config'][key] = value
abbrev pub set_config : String → Value → Value → Result Value
set_config key value connector = set_path ("config" ∷ key ∷ []) value connector

unfoldable pub get_host_configured : Secret → Value → Result Value
get_host_configured secret connector = do
  host ← require_decoded secret "auth_service_locations"
  set_config "host" (str host) connector

-- The second part is the global `auth_secret_bind_pw`.
unfoldable pub set_bind : Secret → Value → String → Result (Value × String)
set_bind secret connector bind_dn = do
  dn ← b64decode bind_dn
  pw ← require_decoded secret "bind_pwd"
  c ← set_config "bindDN" (str dn) connector
  c ← set_config "bindPW" (str ("$" <> dex_config_secret_bind_pw)) c
  ok (c, pw)

-- A bind without a DN is anonymous.
unfoldable pub get_bind_configured :
    Secret → AuthTypeInfo → Value → String → Result (Value × String)
get_bind_configured secret info connector auth_secret_bind_pw =
    if info.bind_type == "search_bind"
    then (do
      bind_dn ← secret_get secret "bind_dn"
      elim bind_dn [
        | none ↦ ok (connector, auth_secret_bind_pw)
        | some dn ↦ set_bind secret connector dn
      ])
    else err (system_exit "[ERROR]    Bind type: '$bind_type' is not supported.")

-- the two `if`s on the protocol; any other one writes no `startTLS`
unfoldable pub set_start_tls : String → Value → Result Value
set_start_tls protocol connector =
    if protocol == "ldaps"
    then set_config "startTLS" (bool false) connector
    else if protocol == "starttls"
    then set_config "startTLS" (bool true) connector
    else ok connector

unfoldable pub set_root_ca : Option String → Value → Result Value
set_root_ca none connector = set_config "insecureSkipVerify" (bool true) connector
set_root_ca (some ca) connector = do
  c ← set_config "insecureSkipVerify" (bool false) connector
  set_config "rootCAData" (str ca) c

unfoldable pub get_security_configured : Secret → AuthTypeInfo → Value → Result Value
get_security_configured secret info connector =
    if info.security_protocol == "none"
    then (do
      c ← set_config "startTLS" (bool false) connector
      c ← set_config "insecureNoSSL" (bool true) c
      set_config "insecureSkipVerify" (bool true) c)
    else (do
      c ← set_config "insecureNoSSL" (bool false) connector
      ca ← secret_get secret "ca_cert"
      c ← set_root_ca ca c
      set_start_tls info.security_protocol c)

unfoldable pub get_user_search_configured : Secret → Value → Result Value
get_user_search_configured secret connector = do
  base ← require_decoded secret "base_dn"
  username ← require_decoded secret "user_attr"
  c ← set_path ("config" ∷ "userSearch" ∷ "baseDN" ∷ []) (str base) connector
  c ← set_path ("config" ∷ "userSearch" ∷ "username" ∷ []) (str username) c
  set_path ("config" ∷ "userSearch" ∷ "nameAttr" ∷ []) (str username) c

-- The calls that both connectors make.
unfoldable pub configure : Secret → AuthTypeInfo → String → Value → Result (Value × String)
configure secret info pw connector = do
  c ← get_host_configured secret connector
  bound ← get_bind_configured secret info c pw
  c ← get_security_configured secret info bound.0
  c ← get_user_search_configured secret c
  c ← get_group_search_configured secret c
  ok (c, bound.1)

abbrev pub start : String → String → String → String → Value
start id name id_attr email_attr = obj (
    ("id", str id)
    ∷ ("name", str name)
    ∷ ("type", str "ldap")
    ∷ (
      "config",
      obj (("userSearch", obj (("idAttr", str id_attr) ∷ ("emailAttr", str email_attr) ∷ [])) ∷ []),
    )
    ∷ [])

unfoldable pub get_connector_for_ldap : Secret → AuthTypeInfo → String → Result (Value × String)
get_connector_for_ldap secret info pw = configure secret info pw (start "ldap" "LDAP" "uid" "uid")

unfoldable pub get_connector_for_ad : Secret → AuthTypeInfo → String → Result (Value × String)
get_connector_for_ad secret info pw =
    configure secret info pw (start "ad" "ActiveDirectory" "DN" "cn")
