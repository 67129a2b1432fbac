-- ===== src/MinioConfig/Run.antt =====
-- What a run of the script does.
use test_minio.Base.{
  ℕ, String, ◌≡◌, refl, ◌≢◌, ◌⊎◌, inl, inr, false, some, List, [], ◌∷◌, Result, ok, err,
  system_exit, exit_error, api_exception, Dict, ◌=ℕ=◌, All, arith, Bool-cases, Option-cases,
  Result-cases, lookup, ◌++◌, ap, ◌∙◌, eq_iff, true, Error, none, type_error, Option, ◌<>◌,
  ◌>>=◌ as bind, subst,
}
use test_minio.Base.Value.{Value}
use test_minio.Cluster.{Cluster, IsLawful, Secret, NewSecret}
use test_minio.MinioConfig.{
  minio_secret_name, minio_secret_namespace, required_fields, general_minio_secret_name,
  general_minio_secret_namespace, is_missing, missing_message, check_fields, check_secret,
  default_data, recover, read_data, exit_on_api, create, main,
}
use test_minio.MinioConfig.Encode.{IsAsciiConfig, Decodes, encode_config-Decodes}

-- a value for each field of the list that is not empty
abbrev pub IsComplete : Dict String → List String → Type 0
IsComplete d = All (λ f. is_missing d f ≡ false)

-- The field is there, with a text that is not empty.
abbrev pub HasField : Dict String → String → Type 0
HasField d f = (v : String) × (lookup f d ≡ some v) × (v ≢ "")

-- Every field before `f` is there, and `f` is not.
abbrev pub LacksFirst : Dict String → String → List String → Type 0
LacksFirst d f fields =
    (before after : List String) × (fields ≡ before ++ f ∷ after)
    × All (HasField d) before
    × ¬ HasField d f

HasField-is_missing : (d : Dict String) (f : String) → HasField d f → is_missing d f ≡ false
unfolding is_missing
HasField-is_missing d f (v, e, ne) = rw (e, is_missing) (ground (arith, eq_iff v ""))

is_missing-HasField : (d : Dict String) (f : String) → is_missing d f ≡ false → HasField d f
unfolding is_missing
is_missing-HasField d f h = elim (Option-cases (lookup f d)) [
  | inl e ↦ absurd (cc (rw (e, is_missing) at h))
  | inr (v, e) ↦ (v, e, λ q. cc (rw (e, is_missing) at h, (eq_iff v "").1 q))
]

lacking_is_missing : (d : Dict String) (f : String) → ¬ HasField d f → is_missing d f ≡ true
lacking_is_missing d f h = elim (Bool-cases (is_missing d f)) [
  | inl e ↦ e
  | inr e ↦ absurd (h (is_missing-HasField d f e))
]

check_fields_complete :
    (fs : List String) (d : Dict String) → All (HasField d) fs → check_fields fs d ≡ ok d
unfolding check_fields
check_fields_complete [] d h = refl
check_fields_complete (f ∷ fs) d (k, h) =
    rw (HasField-is_missing d f k) (check_fields_complete fs d h)

check_fields_first :
    (before after : List String) (f : String) (d : Dict String)
    → All (HasField d) before
    → ¬ HasField d f
    → check_fields (before ++ f ∷ after) d ≡ err (system_exit (missing_message f))
unfolding check_fields
check_fields_first [] after f d h lacks = rw (lacking_is_missing d f lacks) refl
check_fields_first (g ∷ before) after f d (k, h) lacks =
    rw (HasField-is_missing d g k) (check_fields_first before after f d h lacks)

-- the fields that the MinIO of Kubeflow needs
abbrev pub fields_of_minio : List String
fields_of_minio = "host" ∷ "port" ∷ "secure" ∷ "accesskey" ∷ "secretkey" ∷ []

LacksFirst-cons :
    (d : Dict String) (f g : String) (fs : List String)
    → HasField d g
    → LacksFirst d f fs
    → LacksFirst d f (g ∷ fs)
LacksFirst-cons d f g fs k (before, after, parts, h, lacks) =
    (g ∷ before, after, ap (g ∷◌) parts, (k, h), lacks)

HasField-cases :
    (fs : List String) (d : Dict String) → All (HasField d) fs ⊎ ((f : String) × LacksFirst d f fs)
HasField-cases [] d = inl tt
HasField-cases (f ∷ fs) d = elim (Bool-cases (is_missing d f)) [
  | inl e ↦ inr (f, ([], fs, refl, tt, λ k. cc (HasField-is_missing d f k, e)))
  | inr e ↦
      let k = is_missing-HasField d f e in
      elim (HasField-cases fs d) [
        | inl ks ↦ inl (k, ks)
        | inr (g, lacks) ↦ inr (g, LacksFirst-cons d g f fs k lacks)
      ]
]

-- the secret of Kubeflow with the data
abbrev pub minio_params : Dict String → NewSecret
minio_params d = record { name = "minio-params"; secret_type = "Opaque"; content = d }

-- How the script ends, by how creating the secret ends.
pub data CreateEnds (error_text : ℕ → String) : Result (Unit {0}) → Result (Unit {0}) → Type 0 where
  created : CreateEnds error_text (ok tt) (ok tt)
  refused :
      (status : ℕ)
      → CreateEnds error_text
          (err (api_exception status))
          (err (system_exit ("Error while creating secret: " <> error_text status)))
  broken :
      (e : Error)
      → ((status : ℕ) → e ≢ api_exception status)
      → CreateEnds error_text (err e) (err e)

module _ (C : Cluster) (environ : Dict String) (config : Result (Dict Value)) where
  abbrev pub general_secret : C.State → Result Secret
  general_secret s =
      C.read_namespaced_secret s (general_minio_secret_name environ)
        (general_minio_secret_namespace environ)

  -- What the script does with the data `d`: it creates the secret with these data, and ends as that
  -- does.
  abbrev pub Creates : C.State → Dict String → Type 0
  Creates s d =
      let (r, s') = C.create_namespaced_secret s "kubeflow" (minio_params d) in
      ((main C environ config s).1 ≡ s') × CreateEnds C.error_text r (main C environ config s).0

  -- It exits with the name of the first field that is absent or empty, and does nothing else.
  abbrev pub Exits : C.State → Dict String → Type 0
  Exits s d =
      (f : String) × LacksFirst d f fields_of_minio
      × (main C environ config s ≡ (
        err (
            system_exit
              ("Secret was read successfully, but is invalid. Missing field \"" <> f <> "\"")),
        s,
      ))

  exit_on_api-CreateEnds :
      (r : Result (Unit {0})) → CreateEnds C.error_text r (exit_on_api C environ config r)
  unfolding exit_on_api
  exit_on_api-CreateEnds (ok tt) = created
  exit_on_api-CreateEnds (err (api_exception status)) = refused status
  exit_on_api-CreateEnds (err e) = broken e (λ status q. cc)

  main-Creates :
      (s : C.State) (d : Dict String)
      → general_secret s ≡ ok (record { data_ = some d })
      → All (HasField d) fields_of_minio
      → Creates s d
  unfolding main read_data check_secret recover create
  main-Creates s d h k =
      rw (h, check_fields_complete fields_of_minio d k)
        (refl, exit_on_api-CreateEnds (C.create_namespaced_secret s "kubeflow" (minio_params d)).0)

  main-Exits :
      (s : C.State) (d : Dict String) (f : String)
      → general_secret s ≡ ok (record { data_ = some d })
      → LacksFirst d f fields_of_minio
      → Exits s d
  unfolding main read_data check_secret
  main-Exits s d f h (before, after, parts, k, lacks) = (
    f,
    (before, after, parts, k, lacks),
    let e : check_fields fields_of_minio d ≡ err (system_exit (missing_message f)) =
          ap (λ fs. check_fields fs d) parts ∙ check_fields_first before after f d k lacks in
        rw (h, e) (unfold recover in refl),
  )

  -- With an external secret that has data, either each of the five fields is there with a text
  -- that is not empty, and the MinIO script creates kubeflow/minio-params with the same data and
  -- ends well, or with the message of the ApiException, or with any other exception, as creating
  -- it does; or some field is not, and the script exits with the name of the first such and leaves
  -- the cluster as it was.
  pub main_found :
      (s : C.State) (d : Dict String)
      → general_secret s ≡ ok (record { data_ = some d })
      → (All (HasField d) fields_of_minio × Creates s d) ⊎ Exits s d
  main_found s d h = elim (HasField-cases fields_of_minio d) [
    | inl k ↦ inl (k, main-Creates s d h k)
    | inr (f, lacks) ↦ inr (main-Exits s d f h lacks)
  ]

  -- The external secret can be read and has all fields.
  abbrev pub IsUsable : C.State → Type 0
  IsUsable s =
      (d : Dict String) × (general_secret s ≡ ok (record { data_ = some d }))
      × All (HasField d) fields_of_minio

  -- The script raises, and the cluster is as it was.
  abbrev pub Refuses : C.State → Type 0
  Refuses s = (e : Error) × (main C environ config s ≡ (err e, s))

  Refuses-secret :
      (s : C.State) (o : Option (Dict String))
      → general_secret s ≡ ok (record { data_ = o })
      → ¬ IsUsable s
      → Refuses s
  Refuses-secret s none h unusable =
      (type_error, unfold main read_data check_secret recover in rw h refl)
  Refuses-secret s (some d) h unusable = elim (main_found s d h) [
    | inl (k, creates) ↦ absurd (unusable (d, h, k))
    | inr (f, lacks, e) ↦ (_, e)
  ]

  Refuses-error :
      (s : C.State) (e : Error) → general_secret s ≡ err e → e ≢ api_exception 404 → Refuses s
  unfolding main read_data recover
  Refuses-error s (api_exception status) h ne =
      let k : (status =ℕ= 404) ≡ false = elim (Bool-cases (status =ℕ= 404)) [
        | inl y ↦ let q : status ≡ 404 = ground arith in absurd (ne (ap api_exception q))
        | inr n ↦ n
      ] in
      (exit_error (api_exception status), rw h (rw k refl))
  Refuses-error s e h ne = (e, rw h refl)

  -- Where reading the external secret does not fail with 404, and does not give a secret with data
  -- in which each of the five fields is a text that is not empty, the MinIO script raises and
  -- leaves the cluster as it was.
  pub main-Refuses :
      (s : C.State) → general_secret s ≢ err (api_exception 404) → ¬ IsUsable s → Refuses s
  main-Refuses s ne unusable = elim (Result-cases (general_secret s)) [
    | inl (secret, h) ↦ Refuses-secret s secret.data_ h unusable
    | inr (e, h) ↦ Refuses-error s e h (λ q. ne (h ∙ ap err q))
  ]

  -- Where the external secret does not exist and every value of the default configuration is an
  -- ASCII text, the MinIO script creates the secret with the same keys in the same order, each
  -- text decoding to the default value.
  pub main_default :
      (s : C.State) (c : Dict Value)
      → general_secret s ≡ err (api_exception 404)
      → config ≡ ok c
      → IsAsciiConfig c
      → (d : Dict String) × (main C environ config s ≡ create C environ config d s) × Decodes d c
  unfolding main read_data recover default_data
  main_default s c h e a = let (d, f, back) = encode_config-Decodes c a in (d, rw (h, e, f), back)

  ok-exit_on_api : (r : Result (Unit {0})) → exit_on_api C environ config r ≡ ok tt → r ≡ ok tt
  unfolding exit_on_api
  ok-exit_on_api (ok tt) h = refl
  ok-exit_on_api (err (api_exception status)) h = cc
  ok-exit_on_api (err e) h = cc

  -- On a lawful cluster, a run of the MinIO script that ends well had read its data, and
  -- kubeflow/minio-params can then be read with exactly these data.
  pub main_publishes :
      IsLawful C
      → (s : C.State) → (main C environ config s).0 ≡ ok tt
      → (d : Dict String) × (read_data C environ config s ≡ ok d)
        × (C.read_namespaced_secret
              (main C environ config s).1
              minio_secret_name
              minio_secret_namespace
            ≡ ok (record { data_ = some d }))
  unfolding main create
  main_publishes L s h = elim (Result-cases (read_data C environ config s)) [
    | inl (d, e) ↦ (d, e, rw e (L.read-create s _ _ (ok-exit_on_api _ (rw e at h))))
    | inr (x, e) ↦ absurd (cc (rw e at h))
  ]

  check_fields_sound :
      (fs : List String) (d₀ d : Dict String)
      → recover C environ config (check_fields fs d₀) ≡ ok d
      → IsComplete d fs × (d₀ ≡ d)
  unfolding check_fields recover
  check_fields_sound [] d₀ d h = (tt, ground arith)
  check_fields_sound (f ∷ fs) d₀ d h = elim (Bool-cases (is_missing d₀ f)) [
    | inl p ↦ absurd (cc (rw p at h))
    | inr p ↦
        let ih = check_fields_sound fs d₀ d (rw p at h) in
        ((subst (λ x. is_missing x f ≡ false) ih.1 p, ih.0), ih.1)
  ]

  check_secret_sound :
      (secret : Secret) (d : Dict String)
      → recover C environ config (check_secret secret) ≡ ok d
      → IsComplete d required_fields
  unfolding check_secret
  check_secret_sound secret d h = elim (Option-cases secret.data_) [
    | inl e ↦ absurd (unfold recover in cc (rw e at h))
    | inr (d₀, e) ↦ (check_fields_sound required_fields d₀ d (rw e at h)).0
  ]

  recover_sound :
      (r : Result Secret) (d : Dict String)
      → recover C environ config (bind r check_secret) ≡ ok d
      → IsComplete d required_fields
        ⊎ ((r ≡ err (api_exception 404)) × (default_data config ≡ ok d))
  recover_sound (ok secret) d h = inl (check_secret_sound secret d h)
  recover_sound (err (api_exception status)) d h = elim (Bool-cases (status =ℕ= 404)) [
    | inl p ↦ let e : status ≡ 404 = ground arith in inr (rw e, unfold recover in rw p at h)
    | inr p ↦ absurd (unfold recover in cc (rw p at h))
  ]
  recover_sound (err e) d h = absurd (unfold recover in cc)

  -- Data that the MinIO script goes on with have all required fields, or are the encoded defaults
  -- after a 404 for the external secret.
  pub read_data_sound :
      (s : C.State) (d : Dict String)
      → read_data C environ config s ≡ ok d
      → IsComplete d required_fields
        ⊎ ((general_secret s ≡ err (api_exception 404)) × (default_data config ≡ ok d))
  unfolding read_data
  read_data_sound s d h = recover_sound (general_secret s) d h
