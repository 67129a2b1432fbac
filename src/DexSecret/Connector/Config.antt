-- ===== src/DexSecret/Connector/Config.antt =====
-- The functions that fill `connector['config']`, as functions of that dictionary alone.
use test_minio.Base.{
  String, ◌≡◌, refl, Bool, true, false, ◌||◌, Option, none, some, ok, ◌==◌, Dict, lookup,
  if◌then◌else◌, Bool-cases, inl, inr, arith,
}
use test_minio.Base.Value.{
  Value, Fields, dict, bool, str, find, put, set_path, find-put, find-put_self, put-put,
}
use test_minio.Cluster.{Secret}
use test_minio.DexSecret.Reading.{nonempty, secret_get, AuthTypeInfo}
use test_minio.DexSecret.Connector.{set_config, set_start_tls, set_root_ca, get_security_configured}

-- A connector with the dictionary `c` for its configuration and `d` for the rest.
abbrev pub with_config : Fields → Fields → Value
with_config c d = dict (put "config" (dict c) d)

-- connector['config'][key] = value writes to the configuration only.
pub set_config-with_config :
    (key : String) (v : Value) (c d : Fields)
    → set_config key v (with_config c d) ≡ ok (with_config (put key v c) d)
unfolding set_path
set_config-with_config key v c d = rw (find-put_self, set_path) (rw put-put)

-- The certificate authority of a secret.
abbrev pub ca_cert : Dict String → Option String
ca_cert data_ = nonempty (lookup "ca_cert" data_)

abbrev is_none : Option String → Bool
is_none none = true
is_none (some v) = false

abbrev pub start_tls : String → Option Value → Option Value
start_tls protocol before =
    if protocol == "none" || protocol == "ldaps"
    then some (bool false)
    else if protocol == "starttls"
    then some (bool true)
    else before

-- what `set_root_ca` and `set_start_tls` write
abbrev root_ca_fields : Option String → Fields → Fields
root_ca_fields none c = put "insecureSkipVerify" (bool true) c
root_ca_fields (some ca) c = put "rootCAData" (str ca) (put "insecureSkipVerify" (bool false) c)

abbrev start_tls_fields : String → Fields → Fields
start_tls_fields protocol c =
    if protocol == "ldaps"
    then put "startTLS" (bool false) c
    else if protocol == "starttls"
    then put "startTLS" (bool true) c
    else c

set_root_ca-with_config :
    (ca : Option String) (c d : Fields)
    → set_root_ca ca (with_config c d) ≡ ok (with_config (root_ca_fields ca c) d)
unfolding set_root_ca
set_root_ca-with_config none c d = set_config-with_config _ _ c d
set_root_ca-with_config (some ca) c d = rw set_config-with_config (set_config-with_config _ _ _ d)

set_start_tls-with_config :
    (protocol : String) (c d : Fields)
    → set_start_tls protocol (with_config c d) ≡ ok (with_config (start_tls_fields protocol c) d)
unfolding set_start_tls
set_start_tls-with_config protocol c d = elim (Bool-cases (protocol == "ldaps")) [
  | inl p ↦ rw p (set_config-with_config _ _ c d)
  | inr p ↦ elim (Bool-cases (protocol == "starttls")) [
    | inl q ↦ rw p (rw q (set_config-with_config _ _ c d))
    | inr q ↦ rw p (rw q)
  ]
]

abbrev secured_fields : String → Option String → Fields → Fields
secured_fields protocol ca c =
    start_tls_fields protocol (root_ca_fields ca (put "insecureNoSSL" (bool false) c))

find-start_tls_fields :
    (key protocol : String) (c : Fields)
    → protocol == "none" ≡ false
    → find key (start_tls_fields protocol c)
      ≡ (if "startTLS" == key then start_tls protocol (find key c) else find key c)
find-start_tls_fields key protocol c h =
    ground (arith, find-put "startTLS" key (bool false) c, find-put "startTLS" key (bool true) c)

find-root_ca_fields :
    (key : String) (ca : Option String) (c : Fields)
    → "rootCAData" == key ≡ false
    → find key (root_ca_fields ca c)
      ≡ (if "insecureSkipVerify" == key then some (bool (is_none ca)) else find key c)
find-root_ca_fields key none c h = find-put _ _ _ _
find-root_ca_fields key (some ca) c h = rw find-put (rw h (rw find-put))

-- For a secret that has data and a connector with a configuration, the security settings succeed,
-- change the configuration only, and leave insecureSkipVerify true exactly with the protocol
-- "none" or without a CA certificate, insecureNoSSL true exactly with "none", and startTLS false
-- with "none" or "ldaps", true with "starttls" and as before with any other protocol.
pub get_security_configured_flags :
    (secret : Secret) (data_ : Dict String) (info : AuthTypeInfo) (c d : Fields)
    → secret.data_ ≡ some data_
    → (c' : Fields) × (get_security_configured secret info (with_config c d)
        ≡ ok (with_config c' d))
      × (find "insecureSkipVerify" c'
          ≡ some (bool (info.security_protocol == "none" || is_none (ca_cert data_))))
      × (find "insecureNoSSL" c' ≡ some (bool (info.security_protocol == "none")))
      × (find "startTLS" c' ≡ start_tls info.security_protocol (find "startTLS" c))
unfolding get_security_configured secret_get
get_security_configured_flags secret data_ info c d h =
    elim (Bool-cases (info.security_protocol == "none")) [
      | inl p ↦ (
        put "insecureSkipVerify" (bool true)
            (put "insecureNoSSL" (bool true) (put "startTLS" (bool false) c)),
        rw p (rw set_config-with_config (rw set_config-with_config (rw set_config-with_config))),
        rw p (rw find-put),
        rw p (rw find-put (rw find-put)),
        rw p (rw find-put (rw find-put (rw find-put))),
      )
      | inr p ↦ (
        secured_fields info.security_protocol (ca_cert data_) c,
        rw p (
            rw set_config-with_config (
              rw h (
                rw set_root_ca-with_config
                  (set_start_tls-with_config info.security_protocol _ d)))),
        rw p (
            rw (find-start_tls_fields "insecureSkipVerify" _ _ p) (find-root_ca_fields _ _ _ refl)),
        rw p (
            rw (find-start_tls_fields "insecureNoSSL" _ _ p)
              (rw (find-root_ca_fields "insecureNoSSL" (ca_cert data_) _ refl) (rw find-put))),
        rw p (
            rw (find-start_tls_fields "startTLS" _ _ p)
              (rw (find-root_ca_fields "startTLS" (ca_cert data_) _ refl) (rw find-put (rw p)))),
      )
    ]
