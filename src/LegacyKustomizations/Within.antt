-- ===== src/LegacyKustomizations/Within.antt =====
-- What `generate` does to the machine stays in the test directory.
use Prim.Native.Nat.{ℕ, suc}
use text.Mathlib.TextLemmas.{append_assoc, cons-append}
use test_minio.Base.{
  String, ◌<>◌, ◌≡◌, refl, ap, ◌∙◌, Bool, true, false, ◌==◌, ◌||◌, List, [], ◌∷◌, ok, All,
  Bool-cases, Result-cases, inl, inr, Dict, elem,
}
use test_minio.Base.Text.{begins_with}
use test_minio.Base.Text.Split.{begins_with-append}
use test_minio.Base.FilePath.{is_absolute, path_join, dirname, ends_with_slash}
use test_minio.Base.Value.{Value, Fields}
use test_minio.Base.Exec.{pure, lift, ◌>>=◌}
use test_minio.Host.{Host, Action, Actions, make_dirs, copy, write, act}
use test_minio.Host.Keeps.{Keeps, Keeps-bind, Keeps-read, Keeps-act, Keeps-for_each}
use test_minio.LegacyKustomizations.{
  apps_to_skip, ensure_dir, write_app, write_kustomization, patch_app, rewrite_app, generate_app,
  generate_dir, generate_dirs, generate, finished,
}
use test_minio.LegacyKustomizations.Generators.{
  GeneratorFiles, params_file, copy_files, write_generators, build_configmap_generators,
  generators_of, merged,
}
use test_minio.LegacyKustomizations.Rewrite.{rewrite_kustomization, apps_of, num_parents}

-- The action makes a directory or a file, and its path begins with the test directory's.
abbrev pub within : String → Action → Bool
within test_path (make_dirs p) = begins_with p test_path
within test_path (copy f p) = begins_with p test_path
within test_path (write p v) = begins_with p test_path
within test_path _ = false

-- A path that is joined goes on from the first one.
path_join-extends : (a b : String) → is_absolute b ≡ false → (t : String) × (path_join a b ≡ a <> t)
unfolding path_join
path_join-extends a b h = elim (Bool-cases (a == "" || ends_with_slash a)) [
  | inl e ↦ (b, rw (h, e) refl)
  | inr e ↦ ("/" <> b, rw (h, e) refl)
]

begins_with-path_join :
    (a b : String) → is_absolute b ≡ false → begins_with (path_join a b) a ≡ true
begins_with-path_join a b h = let (t, e) = path_join-extends a b h in rw e (begins_with-append a t)

begins_with-path_join_twice :
    (a b c : String)
    → is_absolute b ≡ false
    → is_absolute c ≡ false
    → begins_with (path_join (path_join a b) c) a ≡ true
begins_with-path_join_twice a b c hb hc =
    let (t, e) = path_join-extends a b hb in
    let (u, f) = path_join-extends (path_join a b) c hc in
    ap (λ p. begins_with p a) (f ∙ ap (λ p. p <> u) e ∙ append_assoc a t u)
    ∙ begins_with-append a (t <> u)

module _ (host : Host) (test_path d : String) (hd : is_absolute d ≡ false) where
  abbrev Safe : Action → Type 0
  Safe a = within test_path a ≡ true

  Keeps-ensure_dir : Keeps Safe (ensure_dir host (path_join test_path d))
  unfolding ensure_dir
  Keeps-ensure_dir s hs = elim (Bool-cases (host.exists s (path_join test_path d))) [
    | inl e ↦ rw e hs
    | inr e ↦ rw e (begins_with-path_join test_path d hd, hs)
  ]

  params_file-relative : (i : ℕ) → is_absolute (params_file i) ≡ false
  unfolding params_file
  params_file-relative i = rw cons-append refl

  Keeps-copy_files :
      (i : ℕ) (files : List String) → Keeps Safe (copy_files host (path_join test_path d) i files)
  unfolding copy_files
  Keeps-copy_files i [] = λ s hs. hs
  Keeps-copy_files i (f ∷ files) =
      Keeps-bind Safe (act host (copy f (path_join (path_join test_path d) (params_file i))))
        (λ _. copy_files host (path_join test_path d) (suc i) files >>= λ copied.
          pure (params_file i ∷ copied.0, copied.1))
        (Keeps-act Safe host (copy f (path_join (path_join test_path d) (params_file i)))
          (begins_with-path_join_twice test_path d (params_file i) hd (params_file-relative i)))
        (λ _.
          Keeps-bind Safe (copy_files host (path_join test_path d) (suc i) files)
            (λ copied. pure (params_file i ∷ copied.0, copied.1)) (Keeps-copy_files (suc i) files)
            (λ copied s hs. hs))

  Keeps-write_generators :
      (i : ℕ) (gens : GeneratorFiles)
      → Keeps Safe (write_generators host (path_join test_path d) i gens)
  unfolding write_generators
  Keeps-write_generators i [] = λ s hs. hs
  Keeps-write_generators i ((name, files) ∷ gens) =
      Keeps-bind Safe (copy_files host (path_join test_path d) i files)
        (λ copied. write_generators host (path_join test_path d) copied.1 gens >>= λ gs.
          pure (merged host (path_join test_path d) name copied.0 ∷ gs))
        (Keeps-copy_files i files)
        (λ copied.
          Keeps-bind Safe (write_generators host (path_join test_path d) copied.1 gens)
            (λ gs. pure (merged host (path_join test_path d) name copied.0 ∷ gs))
            (Keeps-write_generators copied.1 gens) (λ gs s hs. hs))

  Keeps-build : (dir : String) → Keeps Safe (build_configmap_generators host dir)
  unfolding build_configmap_generators
  Keeps-build dir =
      Keeps-read Safe (λ s. host.load s (path_join dir "kustomization.yaml"))
        (λ kustomize. lift (generators_of dir kustomize)) (λ kustomize s hs. hs)

  Keeps-write_app :
      (kustomization : Fields) (gens : GeneratorFiles)
      → Keeps Safe (write_app host (path_join test_path d) kustomization gens)
  unfolding write_app write_kustomization
  Keeps-write_app kustomization gens =
      let dir = path_join test_path d in
      Keeps-bind Safe (ensure_dir host dir)
        (λ _. write_generators host dir 0 gens >>= write_kustomization host dir kustomization)
        Keeps-ensure_dir
        (λ _.
          Keeps-bind Safe (write_generators host dir 0 gens)
            (write_kustomization host dir kustomization) (Keeps-write_generators 0 gens)
            (λ gs.
              Keeps-act Safe host
                (write (path_join dir "kustomization.yaml") (finished kustomization gs))
                (begins_with-path_join_twice test_path d "kustomization.yaml" hd refl)))

  module _ (kustomize_dir : String) (apps : Dict Value) (n : ℕ) where
    Keeps-patch_app :
        (kustomization : Fields)
        → Keeps Safe (patch_app host test_path kustomize_dir apps n d kustomization)
    unfolding patch_app
    Keeps-patch_app kustomization =
        let base = path_join (path_join kustomize_dir d) "base" in
        Keeps-bind Safe (build_configmap_generators host base)
          (write_app host (path_join test_path d) kustomization) (Keeps-build base)
          (Keeps-write_app kustomization)

    Keeps-rewrite_app :
        (v : Value) → Keeps Safe (rewrite_app host test_path kustomize_dir apps n d v)
    unfolding rewrite_app
    Keeps-rewrite_app v =
        Keeps-read Safe (λ s. rewrite_kustomization apps d n v)
          (patch_app host test_path kustomize_dir apps n d) Keeps-patch_app

    Keeps-generate_app : Keeps Safe (generate_app host test_path kustomize_dir apps n d)
    unfolding generate_app
    Keeps-generate_app =
        Keeps-read Safe
          (λ s. host.load s (path_join (path_join kustomize_dir d) "kustomization.yaml"))
          (rewrite_app host test_path kustomize_dir apps n d) Keeps-rewrite_app

    Keeps-generate_dir : Keeps Safe (generate_dir host test_path kustomize_dir apps n d)
    unfolding generate_dir
    Keeps-generate_dir s hs = elim (Bool-cases (elem d apps_to_skip)) [
      | inl e ↦ rw e hs
      | inr e ↦
          elim (Bool-cases
            (host.exists s (path_join (path_join kustomize_dir d) "kustomization.yaml"))) [
              | inl f ↦ rw (e, f) (Keeps-generate_app s hs)
              | inr f ↦ rw (e, f) hs
            ]
    ]

-- The names that `os.listdir` gives are no absolute paths.
abbrev pub ListsNames : Host → String → Type 0
ListsNames host p =
    (s : Actions) (ds : List String)
    → host.list_dir s p ≡ ok ds
    → All (λ d. is_absolute d ≡ false) ds

module _ (host : Host) (kfdef repo_root test_path : String) where
  abbrev kustomize_of : String
  kustomize_of = path_join (dirname kfdef) "kustomize"

  module _ (names : ListsNames host kustomize_of) where
    Keeps-generate_dirs :
        (n : ℕ) (apps : Dict Value)
        → Keeps (λ a. within test_path a ≡ true) (generate_dirs host test_path n kustomize_of apps)
    unfolding generate_dirs
    Keeps-generate_dirs n apps s hs = elim (Result-cases (host.list_dir s kustomize_of)) [
      | inr (raised, e) ↦ rw e hs
      | inl (ds, e) ↦ rw e (
          Keeps-for_each (λ a. within test_path a ≡ true) (λ d. is_absolute d ≡ false)
            (generate_dir host test_path kustomize_of apps n) ds (names s ds e)
            (λ d hd. Keeps-generate_dir host test_path d hd kustomize_of apps n) s hs)
    ]

    -- Where os.listdir gives names and not absolute paths, every directory that generate makes and
    -- every file that it copies or writes has a path that begins with the test directory, whether
    -- or not the run raises, and it removes nothing and runs nothing.
    pub generate-Within :
        (s : Actions)
        → All (λ a. within test_path a ≡ true) s
        → All (λ a. within test_path a ≡ true) (generate host kfdef repo_root test_path s).1
    unfolding generate
    generate-Within s hs = elim (Bool-cases (begins_with test_path repo_root)) [
      | inr e ↦ rw e hs
      | inl e ↦ rw e (
          Keeps-read (λ a. within test_path a ≡ true) (λ t. host.load t kfdef)
            (λ kfdef_spec.
              lift (apps_of kfdef_spec)
              >>= generate_dirs host test_path (num_parents repo_root test_path) kustomize_of)
            (λ kfdef_spec.
              Keeps-read (λ a. within test_path a ≡ true) (λ t. apps_of kfdef_spec)
                (generate_dirs host test_path (num_parents repo_root test_path) kustomize_of)
                (Keeps-generate_dirs (num_parents repo_root test_path)))
            s hs)
    ]
