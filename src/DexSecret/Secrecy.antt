-- ===== src/DexSecret/Secrecy.antt =====
-- The configuration that the script writes does not depend on the bind password.
use test_minio.Base.{String, ◌≡◌, ◌∙◌, sym, Bool-cases, inl, inr, [], ◌∷◌, Dict, ◌==◌, ◌>>=◌}
use test_minio.Base.Value.{Value, arr, set_path}
use test_minio.Cluster.{Secret}
use test_minio.DexSecret.{configured, get_connector}
use test_minio.DexSecret.Reading.{AuthTypeInfo, get_auth_type_info}
use test_minio.DexSecret.Connector.{get_connector_for_ldap, get_connector_for_ad}
use test_minio.DexSecret.Connector.Secrecy.{
  config_part, config_part-bind, config_part-ok, bind-config_part, with_bind_pwd, IsPassword,
  configure-with_bind_pwd, get_auth_type_info-with_bind_pwd,
}

module _ (data_ : Dict String) (p q : String) (hp : IsPassword p) (hq : IsPassword q) where
  get_connector-with_bind_pwd :
      (info : AuthTypeInfo)
      → config_part (get_connector (with_bind_pwd data_ p) info)
        ≡ config_part (get_connector (with_bind_pwd data_ q) info)
  unfolding get_connector get_connector_for_ldap get_connector_for_ad
  get_connector-with_bind_pwd info = elim (Bool-cases (info.directory_server == "LDAP")) [
    | inl l ↦ rw l (configure-with_bind_pwd data_ p q hp hq info "" _)
    | inr l ↦ elim (Bool-cases (info.directory_server == "Active Directory")) [
      | inl a ↦ rw l (rw a (configure-with_bind_pwd data_ p q hp hq info "" _))
      | inr a ↦ rw l (rw a)
    ]
  ]

config_part-configured :
    (template : Value) (secret : Secret)
    → config_part (configured template secret) ≡ (
        get_auth_type_info secret >>= λ info. config_part (get_connector secret info) >>= λ c.
        set_path ("connectors" ∷ []) (arr (c ∷ [])) template)
unfolding configured
config_part-configured template secret = config_part-bind (get_auth_type_info secret) _ _ λ info.
    config_part-bind (get_connector secret info) _ _ (λ built. config_part-ok _ built.1)
    ∙ bind-config_part (get_connector secret info)
        (λ c. set_path ("connectors" ∷ []) (arr (c ∷ [])) template)

-- Two authentication secrets that differ in the bind password alone, each with one that is not
-- empty and decodes, give the same configuration of Dex, or the same error.
pub configured-with_bind_pwd :
    (template : Value) (data_ : Dict String) (p q : String)
    → IsPassword p
    → IsPassword q
    → config_part (configured template (with_bind_pwd data_ p))
      ≡ config_part (configured template (with_bind_pwd data_ q))
configured-with_bind_pwd template data_ p q hp hq =
    config_part-configured template _
    ∙ (simp
        (get_auth_type_info-with_bind_pwd data_ p q, get_connector-with_bind_pwd data_ p q hp hq))
    ∙ sym (config_part-configured template _)
