-- ===== src/DexSecret/Tests.antt =====
-- Runs of the functions, and the theorems at concrete secrets.
use test_minio.Base.{
  String, ◌≡◌, refl, ok, err, Error, Dict, [], ◌∷◌, true, false, lookup, insert, some, arith,
  api_exception, index_error, ◌<>◌,
}
use test_minio.Base.Text.{split, contains, begins_with}
use test_minio.Base.Value.{Value, Fields, end, bool, obj, find, put, set_path}
use test_minio.Base64.{b64encode, b64decode}
use test_minio.Base64.Codec.{ascii_encode, ascii_decode}
use test_minio.Base64.Bytes.{b2a, a2b, alphabet}
use test_minio.Cluster.{Secret}
use test_minio.Cluster.Memory.{memory, memory-IsLawful, Store}
use test_minio.DexSecret.{
  Config, configured, get_connector, read_config, secret_body, main, auth_secret_name,
  auth_secret_namespace, handle_read, check_absent,
}
use test_minio.DexSecret.Reading.{
  AuthTypeInfo, nonempty, secret_get, require, require_decoded, get_auth_type_info,
}
use test_minio.DexSecret.Groups.{
  at, group_search, find_base_dn, filter_loop, set_group_search, get_group_search_configured,
}
use test_minio.DexSecret.Groups.Search.{
  Group, spell, first_root, alternatives, group_search-join, group_search-spell,
}
use test_minio.Base.Text.Split.{join}
use test_minio.DexSecret.Connector.{
  configure, get_security_configured, get_connector_for_ldap, get_host_configured, set_bind,
  get_bind_configured, set_root_ca, set_start_tls, get_user_search_configured,
}
use test_minio.DexSecret.Connector.Config.{with_config, get_security_configured_flags}
use test_minio.DexSecret.Connector.Secrecy.{config_part, with_bind_pwd}
use test_minio.DexSecret.Secrecy.{configured-with_bind_pwd}
use test_minio.DexSecret.Publish.{dex_secret, main_keeps, main_publishes_config}

abbrev data_ : Dict String
data_ =
    ("type", "TERBUA==")
    ∷ ("security_protocol", "bGRhcHM=")
    ∷ ("bind_type", "c2VhcmNoX2JpbmQ=")
    ∷ ("auth_service_locations", "aDozODk=")
    ∷ ("bind_dn", "Y249YQ==")
    ∷ ("bind_pwd", "cHc=")
    ∷ ("base_dn", "ZGM9YQ==")
    ∷ ("user_attr", "dWlk")
    ∷ ("groups", "Y249Zyxub25lOjo6OmNuPWgsZGM9Yg==")
    ∷ []

group_runs :
    (group_search "cn=g,none::::cn=h,dc=b"
      ≡ ok (record { base_dn = "dc=b"; filter = "\"(|(cn=g)(cn=h))\"" }))
    × (group_search "cn=g,dc=a,dc=b" ≡ ok (record { base_dn = "dc=a"; filter = "\"(cn=g)\"" }))
    × (group_search "cn=g" ≡ err index_error)
unfolding group_search find_base_dn filter_loop at split contains begins_with
group_runs = (refl, refl, refl)

abbrev g : Group
g = record { cn = "cn=g"; root = "none" }

abbrev h : Group
h = record { cn = "cn=h"; root = "dc=b" }

group_search-join_example :
    group_search (join "::::" (spell g ∷ spell h ∷ []))
    ≡ ok (record {
      base_dn = first_root (g ∷ h ∷ []);
      filter = ("\"(|" <> alternatives (g ∷ h ∷ [])) <> ")\"";
    })
group_search-join_example = group_search-join g h [] (omega arith)

group_search-spell_example :
    group_search (spell h) ≡ ok (record { base_dn = "dc=b"; filter = "\"(" <> "cn=h" <> ")\"" })
group_search-spell_example = group_search-spell h (omega arith)

abbrev secret : Secret
secret = record { data_ = some data_ }

abbrev ldaps : AuthTypeInfo
ldaps = record { directory_server = "LDAP"; security_protocol = "ldaps"; bind_type = "search_bind" }

get_security_configured_flags_example :
    (c' : Fields) × (get_security_configured secret ldaps (with_config end end)
      ≡ ok (with_config c' end))
    × (find "insecureSkipVerify" c' ≡ some (bool true))
    × (find "insecureNoSSL" c' ≡ some (bool false))
    × (find "startTLS" c' ≡ some (bool false))
unfolding lookup nonempty
get_security_configured_flags_example =
    get_security_configured_flags secret data_ ldaps end end refl

configured-with_bind_pwd_example :
    config_part (configured (obj []) (with_bind_pwd data_ "YQ=="))
    ≡ config_part (configured (obj []) (with_bind_pwd data_ "Yg=="))
unfolding b64decode ascii_encode ascii_decode a2b
configured-with_bind_pwd_example =
    configured-with_bind_pwd (obj []) data_ "YQ==" "Yg==" (refl, "a", refl) (refl, "b", refl)

abbrev dump : Value → String
dump v = "dumped"

abbrev cluster : Store
cluster = ("hpecp/hpecp-ext-auth-secret", data_) ∷ []

main_runs :
    (main memory [] (obj []) dump cluster).1
    ≡ ("hpecp/hpecp-ext-auth-secret", data_)
      ∷ (
        "auth/dex-config-secret",
        ("config.yaml", "ZHVtcGVk") ∷ ("AUTH_SECRET_BIND_PW", "cHc=") ∷ [],
      )
      ∷ []
unfolding main read_config secret_body configured get_connector get_auth_type_info require_decoded
    require secret_get configure get_connector_for_ldap get_host_configured get_bind_configured
    set_bind get_security_configured set_root_ca set_start_tls get_user_search_configured
    get_group_search_configured set_group_search group_search find_base_dn filter_loop at split
    contains begins_with handle_read check_absent auth_secret_name auth_secret_namespace lookup
    insert set_path find put b64encode b64decode ascii_encode ascii_decode b2a a2b alphabet
main_runs = refl

main_keeps_example :
    (e : Error) × (main memory [] (obj []) dump (("auth/dex-config-secret", []) ∷ [])
      ≡ (err e, ("auth/dex-config-secret", []) ∷ []))
unfolding lookup
main_keeps_example =
    main_keeps memory [] (obj []) dump (("auth/dex-config-secret", []) ∷ []) (λ p. cc p)

main_publishes_config_example :
    (config : Config) × (text : String) × (pw : String) × (read_config memory []
        (obj [])
        dump
        cluster
      ≡ ok config)
    × (dex_secret memory [] (obj []) dump cluster ≡ err (api_exception 404))
    × (dex_secret memory [] (obj []) dump (main memory [] (obj []) dump cluster).1
        ≡ ok (record { data_ = some (("config.yaml", text) ∷ ("AUTH_SECRET_BIND_PW", pw) ∷ []) }))
    × (b64decode text ≡ ok (dump config.0))
    × (b64decode pw ≡ ok config.1)
unfolding main read_config secret_body configured get_connector get_auth_type_info require_decoded
    require secret_get configure get_connector_for_ldap get_host_configured get_bind_configured
    set_bind get_security_configured set_root_ca set_start_tls get_user_search_configured
    get_group_search_configured set_group_search group_search find_base_dn filter_loop at split
    contains begins_with handle_read check_absent auth_secret_name auth_secret_namespace lookup
    insert set_path find put b64encode b64decode ascii_encode ascii_decode b2a a2b alphabet
main_publishes_config_example =
    main_publishes_config memory [] (obj []) dump memory-IsLawful cluster refl
