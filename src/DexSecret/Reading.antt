-- ===== src/DexSecret/Reading.antt =====
-- Reading the authentication secret: bootstrap/components/dex-secret-ldap/entrypoint.py,
-- `get_auth_type_info` and the tests `if not ...` of the other functions.
use test_minio.Base.{
  String, Option, none, some, ◌<>◌, Result, ok, err, attribute_error, system_exit, ◌>>=◌, lookup,
  ◌==◌, if◌then◌else◌,
}
use test_minio.Base64.{b64decode}
use test_minio.Cluster.{Secret}

-- An absent value and an empty one fail `if not value` alike.
unfoldable pub nonempty : Option String → Option String
nonempty none = none
nonempty (some v) = if v == "" then none else some v

-- secret.data.get(key), `none` where it is not true; `None` has no `get`
unfoldable pub secret_get : Secret → String → Result (Option String)
unfolding nonempty
secret_get secret key = elim secret.data_ [
  | none ↦ err attribute_error
  | some d ↦ ok (nonempty (lookup key d))
]

abbrev pub not_found_message : String → String
not_found_message key = "[ERROR]   '" <> key <> "' is not found in secret"

abbrev pub or_exit : String → Option String → Result String
or_exit key none = err (system_exit (not_found_message key))
or_exit key (some v) = ok v

-- secret.data.get(key), or `sys.exit`
unfoldable pub require : Secret → String → Result String
require secret key = do v ← secret_get secret key; or_exit key v

-- the same, decoded
unfoldable pub require_decoded : Secret → String → Result String
require_decoded secret key = do v ← require secret key; b64decode v

pub record AuthTypeInfo : Type 0 where
  pub directory_server : String
  pub security_protocol : String
  pub bind_type : String

unfoldable pub get_auth_type_info : Secret → Result AuthTypeInfo
get_auth_type_info secret = do
  server ← require_decoded secret "type"
  protocol ← require_decoded secret "security_protocol"
  bind ← require_decoded secret "bind_type"
  ok (record { directory_server = server; security_protocol = protocol; bind_type = bind })
