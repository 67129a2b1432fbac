-- ===== src/DexSecret/Publish.antt =====
-- What a run of the script does to the cluster.
use test_minio.Base.{
  String, ◌≡◌, ◌≢◌, inl, inr, [], ◌∷◌, Error, Result, ok, err, some, api_exception, Dict, arith,
  Result-cases, ok_of_bind,
}
use test_minio.Base.Value.{Value}
use test_minio.Base64.{b64encode, b64decode}
use test_minio.Base64.TextTrip.{b64decode_of_b64encode}
use test_minio.Cluster.{Cluster, IsLawful, Secret, NewSecret}
use test_minio.DexSecret.{
  dex_config_secret_name, dex_config_secret_namespace, Config, check_absent, read_config,
  secret_body, main,
}

check_absent_ok : (r : Result Secret) → check_absent r ≡ ok tt → r ≡ err (api_exception 404)
unfolding check_absent
check_absent_ok (ok secret) h = absurd (cc)
check_absent_ok (err (api_exception status)) h = ground arith
check_absent_ok (err e) h = absurd (cc)

module _ (C : Cluster) (environ : Dict String) (template : Value) (dump : Value → String) where
  abbrev pub dex_secret : C.State → Result Secret
  dex_secret s = C.read_namespaced_secret s dex_config_secret_name dex_config_secret_namespace

  -- Where reading the secret of Dex does not fail with 404, so in particular where that secret
  -- exists, the Dex script raises and leaves the cluster as it was.
  pub main_keeps :
      (s : C.State)
      → dex_secret s ≢ err (api_exception 404)
      → (e : Error) × (main C environ template dump s ≡ (err e, s))
  unfolding main
  main_keeps s h = elim (Result-cases (read_config C environ template dump s)) [
    | inr (e, p) ↦ (e, rw p)
    | inl (config, p) ↦ elim (Result-cases (check_absent (dex_secret s))) [
      | inl (u, q) ↦ absurd (h (check_absent_ok _ q))
      | inr (e, q) ↦ (e, rw p (rw q))
    ]
  ]

  abbrev body_of : String → String → NewSecret
  body_of text pw = record {
    name = dex_config_secret_name;
    secret_type = "Opaque";
    content = ("config.yaml", text) ∷ ("AUTH_SECRET_BIND_PW", pw) ∷ [];
  }

  secret_body-ok :
      (config : Config) (body : NewSecret)
      → secret_body C environ template dump config ≡ ok body
      → (text : String) × (pw : String) × (body ≡ body_of text pw)
        × (b64decode text ≡ ok (dump config.0))
        × (b64decode pw ≡ ok config.1)
  unfolding secret_body
  secret_body-ok config body h =
      let (text, e, h') = ok_of_bind (b64encode (dump config.0)) _ body h in
      let (pw, f, h'') = ok_of_bind (b64encode config.1) _ body h' in
      (text, pw, ground arith, b64decode_of_b64encode _ _ e, b64decode_of_b64encode _ _ f)

  -- On a lawful cluster, a run of the Dex script that ends well had a configuration, found the
  -- secret of Dex absent, and leaves a secret whose two texts decode to the dump of the
  -- configuration and to the bind password.
  pub main_publishes_config :
      IsLawful C
      → (s : C.State) → (main C environ template dump s).0 ≡ ok tt
      → (config : Config) × (text : String) × (pw : String) × (read_config C environ template dump s
          ≡ ok config)
        × (dex_secret s ≡ err (api_exception 404))
        × (dex_secret (main C environ template dump s).1
            ≡ ok (record {
              data_ = some (("config.yaml", text) ∷ ("AUTH_SECRET_BIND_PW", pw) ∷ []);
            }))
        × (b64decode text ≡ ok (dump config.0))
        × (b64decode pw ≡ ok config.1)
  unfolding main
  main_publishes_config L s h = elim (Result-cases (read_config C environ template dump s)) [
    | inr (e, p) ↦ absurd (cc (rw p at h))
    | inl (config, p) ↦ elim (Result-cases (check_absent (dex_secret s))) [
      | inr (e, q) ↦ absurd (cc (rw q at (rw p at h)))
      | inl (u, q) ↦ elim (Result-cases (secret_body C environ template dump config)) [
        | inr (e, r) ↦ absurd (cc (rw r at (rw q at (rw p at h))))
        | inl (body, r) ↦
            let (text, pw, b, t, w) = secret_body-ok config body r in
            (
              config,
              text,
              pw,
              p,
              check_absent_ok _ q,
              rw p (
                  rw q (
                    rw r (
                      rw b (
                        L.read-create s dex_config_secret_namespace (body_of text pw)
                          (rw b at (rw r at (rw q at (rw p at h)))))))),
              t,
              w,
            )
      ]
    ]
  ]
