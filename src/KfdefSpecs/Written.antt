-- ===== src/KfdefSpecs/Written.antt =====
-- What a run of the script writes: for each version one file for each file of kustomize.
use text.Mathlib.TextLemmas.{append_assoc}
use test_minio.Base.{
  String, ◌<>◌, ◌≡◌, refl, ap, sym, ◌∙◌, false, none, List, [], ◌∷◌, ok, All, subst,
}
use test_minio.Base.Value.{Value}
use test_minio.Base.Text.Split.{Lacks}
use test_minio.Base.FilePath.{path_join, only_dots, ends_with_slash}
use test_minio.Base.Exec.{lift, gets, ok_of_bind}
use test_minio.Host.{Host, Actions, run, write, act, for_each}
use test_minio.Host.Steps.{Steps, for_each-Steps}
use test_minio.LegacyKustomizations.Paths.Joins.{IsOpen, IsOpen-glue, path_join_open}
use test_minio.KfdefSpecs.{
  delete_name, new_name, write_spec, process_file, process_files, build_in, build_version,
  build_dir, build_specs,
}
use test_minio.KfdefSpecs.Unnamed.{HasUniqueMetadata, Unnames, delete_name-Unnames}
use test_minio.KfdefSpecs.Names.{underscored, suffix, new_name_lem, name-relative}

-- The name of a file that kustomize writes: the group, the version and the kind, and the name of the
-- resource, which has no "/" and is not made of dots.
abbrev pub IsKfdefFile : String → Type 0
IsKfdefFile f =
    (stem : String) × Lacks b'/' stem
    × (only_dots stem ≡ false)
    × (f ≡ "kfdef.apps.kubeflow.org_v1_kfdef_" <> (stem <> ".yaml"))

-- What is relied on: kustomize names the files that it has just built so, and a YAML mapping has each key
-- once.
abbrev pub ListsKfdefs : Host → Type 0
ListsKfdefs host =
    (s : Actions) (source temp_dir : String) (fs : List String)
    → host.list_dir (run ("kustomize" ∷ "build" ∷ source ∷ "-o" ∷ temp_dir ∷ []) none ∷ s) temp_dir
      ≡ ok fs
    → All IsKfdefFile fs

abbrev pub LoadsUnique : Host → Type 0
LoadsUnique host =
    (s : Actions) (p : String) (v : Value) → host.load s p ≡ ok v → HasUniqueMetadata v

All-units : {A : Type 0} (xs : List A) → All (λ _. Unit {0}) xs
All-units [] = tt
All-units (x ∷ xs) = (tt, All-units xs)

module _ (host : Host) (root : String) where
  -- One file is read, and written below kfdef/ without the name in its metadata, under the name of the
  -- resource and the version.
  abbrev pub FileWritten : String → String → String → Actions → Actions → Type 0
  FileWritten version temp_dir f s t =
      (stem : String) × (v w : Value) × (f
        ≡ "kfdef.apps.kubeflow.org_v1_kfdef_" <> (stem <> ".yaml"))
      × (host.load s (path_join temp_dir f) ≡ ok v)
      × Unnames v w
      × (t ≡ write (root <> ("/kfdef/" <> (underscored stem <> suffix version))) w ∷ s)

  -- kustomize has built the version into a new directory, and each of its files is written.
  abbrev pub VersionBuilt : String → String → Actions → Actions → Type 0
  VersionBuilt base version s t =
      (temp_dir : String) × (fs : List String) × (u : Actions) × (host.make_temp s ≡ ok temp_dir)
      × (u ≡ run ("kustomize" ∷ "build" ∷ path_join base version ∷ "-o" ∷ temp_dir ∷ []) none ∷ s)
      × (host.list_dir u temp_dir ≡ ok fs)
      × Steps (FileWritten version temp_dir) fs u t

  -- Each version in a directory is built.
  abbrev pub DirBuilt : String × List String → Actions → Actions → Type 0
  DirBuilt d s t = Steps (VersionBuilt d.0) d.1 s t

  module _ (unique : LoadsUnique host) (open_ : IsOpen root) where
    file_path :
        (stem t : String)
        → Lacks b'/' stem
        → only_dots stem ≡ false
        → path_join (path_join root "kfdef") (underscored stem <> t)
          ≡ root <> ("/kfdef/" <> (underscored stem <> t))
    unfolding ends_with_slash
    file_path stem t lacks dots =
        ap (λ p. path_join p (underscored stem <> t)) (path_join_open root "kfdef" open_ refl)
        ∙ path_join_open (root <> ("/" <> "kfdef")) (underscored stem <> t)
            (IsOpen-glue root ("kfdef" ∷ []) open_ (((refl, refl), refl), tt))
            (name-relative stem t lacks dots)
        ∙ append_assoc root "/kfdef" ("/" <> (underscored stem <> t))
        ∙ ap (λ u. root <> u) (sym (append_assoc "/kfdef" "/" (underscored stem <> t)))

    source_path : path_join (path_join root "kfdef") "source" ≡ root <> "/kfdef/source"
    unfolding ends_with_slash
    source_path =
        ap (λ p. path_join p "source") (path_join_open root "kfdef" open_ refl)
        ∙ path_join_open (root <> ("/" <> "kfdef")) "source"
            (IsOpen-glue root ("kfdef" ∷ []) open_ (((refl, refl), refl), tt)) refl
        ∙ append_assoc root "/kfdef" "/source"

    process_file-FileWritten :
        (version temp_dir f : String) (s : Actions)
        → IsKfdefFile f
        → (process_file host (path_join root "kfdef") version temp_dir f s).0 ≡ ok tt
        → FileWritten version temp_dir f s
            (process_file host (path_join root "kfdef") version temp_dir f s).1
    unfolding process_file write_spec
    process_file-FileWritten version temp_dir f s (stem, lacks, dots, named) h =
        let kfdef_dir = path_join root "kfdef" in
        let (v, d, e) =
          ok_of_bind (gets (λ s'. host.load s' (path_join temp_dir f)))
            (write_spec host kfdef_dir (path_join kfdef_dir (new_name version f))) s tt h in
        let (w, g, k) =
          ok_of_bind (lift (delete_name v))
            (λ w'. act host (write (path_join kfdef_dir (new_name version f)) w')) s tt
            (ap (λ r. r.0) (sym e) ∙ h) in
        (
          stem,
          v,
          w,
          named,
          d,
          delete_name-Unnames v w (unique s (path_join temp_dir f) v d) g,
          ap (λ r. r.1) (e ∙ k)
              ∙ ap (λ p. write p w ∷ s)
                  (ap (path_join kfdef_dir)
                      (ap (new_name version) named ∙ new_name_lem version stem dots)
                    ∙ file_path stem (suffix version) lacks dots),
        )

    module _ (lists : ListsKfdefs host) where
      build_version-VersionBuilt :
          (base version : String) (s : Actions)
          → (build_version host (path_join root "kfdef") base version s).0 ≡ ok tt
          → VersionBuilt base version s
              (build_version host (path_join root "kfdef") base version s).1
      unfolding build_version build_in process_files
      build_version-VersionBuilt base version s h =
          let kfdef_dir = path_join root "kfdef" in
          let (temp_dir, d, e) =
            ok_of_bind (gets host.make_temp) (build_in host kfdef_dir base version) s tt h in
          let build =
            run ("kustomize" ∷ "build" ∷ path_join base version ∷ "-o" ∷ temp_dir ∷ []) none in
          let (_, _, f) =
            ok_of_bind (act host build) (λ _. process_files host kfdef_dir version temp_dir) s tt
              (ap (λ r. r.0) (sym e) ∙ h) in
          let (fs, g, k) =
            ok_of_bind (gets (λ u. host.list_dir u temp_dir))
              (for_each (process_file host kfdef_dir version temp_dir)) (build ∷ s) tt
              (ap (λ r. r.0) (sym (e ∙ f)) ∙ h) in
          (
            temp_dir,
            fs,
            build ∷ s,
            d,
            refl,
            g,
            subst (Steps (FileWritten version temp_dir) fs (build ∷ s))
                (ap (λ r. r.1) (sym (e ∙ f ∙ k)))
                (for_each-Steps (FileWritten version temp_dir) IsKfdefFile
                  (process_file host kfdef_dir version temp_dir)
                  (process_file-FileWritten version temp_dir) fs (build ∷ s)
                  (lists s (path_join base version) temp_dir fs g)
                  (ap (λ r. r.0) (sym (e ∙ f ∙ k)) ∙ h)),
          )

      build_dir-DirBuilt :
          (d : String × List String) (s : Actions)
          → (build_dir host (path_join root "kfdef") d s).0 ≡ ok tt
          → DirBuilt d s (build_dir host (path_join root "kfdef") d s).1
      unfolding build_dir
      build_dir-DirBuilt (base, dirs) s h =
          for_each-Steps (VersionBuilt base) (λ _. Unit {0})
            (build_version host (path_join root "kfdef") base)
            (λ version t _. build_version-VersionBuilt base version t) dirs s (All-units dirs) h

      -- Where kustomize names its files by the group, version and kind and by the name of a
      -- resource, which has no "/" and is not made of dots, a mapping loaded as metadata has each
      -- key once, and the root is not empty and does not end in "/", a run of build_specs that
      -- ends well has, for each version of each directory that the walk over kfdef/source gives,
      -- in order, run kustomize build into a new directory and then, for each file there, in
      -- order, written its document, without the name in the metadata and otherwise unchanged, to
      -- the file of kfdef that is named after the resource and the version, with "_" for "-" and
      -- master left out.
      pub build_specs-Written :
          (s : Actions)
          → (build_specs host root s).0 ≡ ok tt
          → Steps DirBuilt (host.walk s (root <> "/kfdef/source")) s (build_specs host root s).1
      unfolding build_specs
      build_specs-Written s h =
          subst (λ p. Steps DirBuilt (host.walk s p) s (build_specs host root s).1) source_path
            (for_each-Steps DirBuilt (λ _. Unit {0}) (build_dir host (path_join root "kfdef"))
              (λ d t _. build_dir-DirBuilt d t)
              (host.walk s (path_join (path_join root "kfdef") "source")) s (All-units _) h)
