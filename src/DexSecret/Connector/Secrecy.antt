-- ===== src/DexSecret/Connector/Secrecy.antt =====
-- The bind password does not reach the configuration.
use mathlib.Core.Path.{fun_ext}
use test_minio.Base.{
  String, ◌≡◌, refl, ◌∙◌, sym, false, Bool-cases, Option, none, some, Result, ok, err, system_exit,
  ◌>>=◌, ◌==◌, Dict, insert, lookup-insert, ◌<>◌, if◌then◌else◌, inl, inr,
}
use test_minio.Base.Value.{Value, str}
use test_minio.Base64.{b64decode}
use test_minio.Cluster.{Secret}
use test_minio.DexSecret.Reading.{
  secret_get, require, require_decoded, AuthTypeInfo, get_auth_type_info,
}
use test_minio.DexSecret.Groups.{get_group_search_configured}
use test_minio.DexSecret.Connector.{
  set_config, dex_config_secret_bind_pw, get_host_configured, set_bind, get_bind_configured,
  get_security_configured, get_user_search_configured, configure,
}

-- the configuration alone, without the password that goes to a secret of its own
abbrev pub config_part : Result (Value × String) → Result Value
config_part (ok (v, pw)) = ok v
config_part (err e) = err e

-- the authentication secret with the given bind password
abbrev pub with_bind_pwd : Dict String → String → Secret
with_bind_pwd data_ pw = record { data_ = some (insert "bind_pwd" pw data_) }

-- A step that keeps the password aside is one on the configuration.
pub config_part-bind :
    {A : Type 0} (r : Result A) (k : A → Result (Value × String)) (k' : A → Result Value)
    → ((a : A) → config_part (k a) ≡ k' a)
    → config_part (r >>= k) ≡ (r >>= k')
config_part-bind (ok a) k k' h = h a
config_part-bind (err e) k k' h = refl

pub config_part-ok : (r : Result Value) (pw : String) → config_part (r >>= λ c. ok (c, pw)) ≡ r
config_part-ok (ok c) pw = refl
config_part-ok (err e) pw = refl

pub bind-config_part :
    {A : Type 0} (m : Result (Value × String)) (f : Value → Result A)
    → (m >>= λ b. f b.0) ≡ (config_part m >>= f)
bind-config_part (ok b) f = refl
bind-config_part (err e) f = refl

-- the steps behind the binding
abbrev later : Secret → AuthTypeInfo → Value → Result Value
later secret info c = do
  c ← get_security_configured secret info c
  c ← get_user_search_configured secret c
  get_group_search_configured secret c

config_part-configure :
    (secret : Secret) (info : AuthTypeInfo) (pw : String) (connector : Value)
    → config_part (configure secret info pw connector) ≡ (
        get_host_configured secret connector >>= λ c.
        config_part (get_bind_configured secret info c pw) >>= later secret info)
unfolding configure
config_part-configure secret info pw connector =
    config_part-bind (get_host_configured secret connector) _ _ λ c.
      config_part-bind (get_bind_configured secret info c pw) _ _ (λ b.
        config_part-bind (get_security_configured secret info b.0) _ _ λ x.
          config_part-bind (get_user_search_configured secret x) _ _
            λ y. config_part-ok (get_group_search_configured secret y) b.1)
      ∙ bind-config_part (get_bind_configured secret info c pw) (later secret info)

module _ (data_ : Dict String) (p q : String) where
  abbrev one : Secret
  one = with_bind_pwd data_ p

  abbrev two : Secret
  two = with_bind_pwd data_ q

  secret_get-with_bind_pwd :
      (key : String) → "bind_pwd" == key ≡ false → secret_get one key ≡ secret_get two key
  unfolding secret_get
  secret_get-with_bind_pwd key h =
      rw (lookup-insert "bind_pwd" key p) (rw (lookup-insert "bind_pwd" key q) (rw h))

  require_decoded-with_bind_pwd :
      (key : String) → "bind_pwd" == key ≡ false → require_decoded one key ≡ require_decoded two key
  unfolding require_decoded require
  require_decoded-with_bind_pwd key h = rw (secret_get-with_bind_pwd key h)

  get_host-with_bind_pwd : (c : Value) → get_host_configured one c ≡ get_host_configured two c
  unfolding get_host_configured
  get_host-with_bind_pwd c = rw (require_decoded-with_bind_pwd "auth_service_locations" refl)

  get_security-with_bind_pwd :
      (info : AuthTypeInfo) (c : Value)
      → get_security_configured one info c ≡ get_security_configured two info c
  unfolding get_security_configured
  get_security-with_bind_pwd info c = simp (secret_get-with_bind_pwd "ca_cert" refl)

  get_user_search-with_bind_pwd :
      (c : Value) → get_user_search_configured one c ≡ get_user_search_configured two c
  unfolding get_user_search_configured
  get_user_search-with_bind_pwd c =
      simp (
        require_decoded-with_bind_pwd "base_dn" refl,
        require_decoded-with_bind_pwd "user_attr" refl,
      )

  get_group_search-with_bind_pwd :
      (c : Value) → get_group_search_configured one c ≡ get_group_search_configured two c
  unfolding get_group_search_configured
  get_group_search-with_bind_pwd c = rw (secret_get-with_bind_pwd "groups" refl)

  pub get_auth_type_info-with_bind_pwd : get_auth_type_info one ≡ get_auth_type_info two
  unfolding get_auth_type_info
  get_auth_type_info-with_bind_pwd = simp (
    require_decoded-with_bind_pwd "type" refl,
    require_decoded-with_bind_pwd "security_protocol" refl,
    require_decoded-with_bind_pwd "bind_type" refl,
  )

-- The password is there and is base64.
abbrev pub IsPassword : String → Type 0
IsPassword p = (p == "" ≡ false) × (t : String) × (b64decode p ≡ ok t)

require_decoded-bind_pwd :
    (data_ : Dict String) (p t : String)
    → p == "" ≡ false
    → b64decode p ≡ ok t
    → require_decoded (with_bind_pwd data_ p) "bind_pwd" ≡ ok t
unfolding require_decoded require secret_get
require_decoded-bind_pwd data_ p t h e = rw (lookup-insert "bind_pwd" "bind_pwd" p) (rw h e)

-- what `set_bind` writes
bind_fields : Value → String → Result Value
bind_fields connector dn = do
  c ← set_config "bindDN" (str dn) connector
  set_config "bindPW" (str ("$" <> dex_config_secret_bind_pw)) c

config_part-set_bind :
    (data_ : Dict String) (p : String) (c : Value) (dn : String)
    → IsPassword p
    → config_part (set_bind (with_bind_pwd data_ p) c dn) ≡ (b64decode dn >>= bind_fields c)
unfolding set_bind bind_fields
config_part-set_bind data_ p c dn (h, t, e) = config_part-bind (b64decode dn) _ _ λ d.
    rw (require_decoded-bind_pwd data_ p t h e)
      (config_part-bind (set_config "bindDN" (str d) c) _ _ λ x. config_part-ok _ t)

bound : Value → Option String → Result Value
bound c none = ok c
bound c (some dn) = b64decode dn >>= bind_fields c

config_part-bound :
    (data_ : Dict String) (p pw : String) (c : Value) (dn : Option String)
    → IsPassword p
    → config_part (elim dn [ none ↦ ok (c, pw) | some dn ↦ set_bind (with_bind_pwd data_ p) c dn ])
      ≡ bound c dn
unfolding bound
config_part-bound data_ p pw c none h = refl
config_part-bound data_ p pw c (some dn) h = config_part-set_bind data_ p c dn h

config_part-get_bind :
    (data_ : Dict String) (p : String) (info : AuthTypeInfo) (c : Value) (pw : String)
    → IsPassword p
    → config_part (get_bind_configured (with_bind_pwd data_ p) info c pw) ≡ (
        if info.bind_type == "search_bind"
        then secret_get (with_bind_pwd data_ p) "bind_dn" >>= bound c
        else err (system_exit "[ERROR]    Bind type: '$bind_type' is not supported."))
unfolding get_bind_configured
config_part-get_bind data_ p info c pw h = elim (Bool-cases (info.bind_type == "search_bind")) [
  | inr e ↦ rw e
  | inl e ↦ rw e (
      config_part-bind (secret_get (with_bind_pwd data_ p) "bind_dn") _ _
        λ dn. config_part-bound data_ p pw c dn h)
]

module _ (data_ : Dict String) (p q : String) (hp : IsPassword p) (hq : IsPassword q) where
  get_bind-with_bind_pwd :
      (info : AuthTypeInfo) (c : Value) (pw : String)
      → config_part (get_bind_configured (one data_ p q) info c pw)
        ≡ config_part (get_bind_configured (two data_ p q) info c pw)
  get_bind-with_bind_pwd info c pw =
      config_part-get_bind data_ p info c pw hp
      ∙ rw (secret_get-with_bind_pwd data_ p q "bind_dn" refl)
          (sym (config_part-get_bind data_ q info c pw hq))

  later-with_bind_pwd :
      (info : AuthTypeInfo) → later (one data_ p q) info ≡ later (two data_ p q) info
  later-with_bind_pwd info = fun_ext λ c. simp (
    get_security-with_bind_pwd data_ p q,
    get_user_search-with_bind_pwd data_ p q,
    get_group_search-with_bind_pwd data_ p q,
  )

  -- Whatever the bind password, the connector is the same.
  pub configure-with_bind_pwd :
      (info : AuthTypeInfo) (pw : String) (connector : Value)
      → config_part (configure (one data_ p q) info pw connector)
        ≡ config_part (configure (two data_ p q) info pw connector)
  configure-with_bind_pwd info pw connector =
      config_part-configure _ info pw connector
      ∙ (simp (get_host-with_bind_pwd data_ p q, get_bind-with_bind_pwd, later-with_bind_pwd))
      ∙ sym (config_part-configure _ info pw connector)
