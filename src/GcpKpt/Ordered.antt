-- ===== src/GcpKpt/Ordered.antt =====
-- What a run does, in order: the old data are removed, the sources are copied, and each setter is set.
use text.Mathlib.TextLemmas.{append_assoc}
use test_minio.Base.{
  String, ◌<>◌, ◌≡◌, refl, sym, ap, ◌∙◌, true, false, Bool-cases, inl, inr, some, List, [], ◌∷◌, ok,
  Dict, subst,
}
use test_minio.Base.Text.{strip}
use test_minio.Base.FilePath.{path_join, ends_with_slash, is_absolute}
use test_minio.Base.Exec.{◌>>◌, ok_of_bind}
use test_minio.Host.{Host, Action, Actions, copy, copy_tree, remove_tree, run, act, for_each}
use test_minio.Host.Steps.{Steps, for_each-Steps}
use test_minio.Host.Keeps.{pushed, for_each-pushed}
use test_minio.LegacyKustomizations.Paths.Joins.{
  IsOpen, IsPart, IsOpen-glue, IsOpen-behind, path_join_open,
}
use test_minio.GcpKpt.{
  setters, subdirs, gcp_path, data_dir_of, set_command, clear, copy_source, write_data,
  write_gcp_kpt,
}

-- The value that each setter gets.
abbrev pub setter_table : Dict String
setter_table =
    ("gcloud.core.project", "customerProject")
    ∷ ("gcloud.project.projectNumber", "999911112222")
    ∷ ("gcloud.compute.zone", "testZone")
    ∷ ("gcloud.compute.region", "testRegion")
    ∷ ("location", "testLocation")
    ∷ ("name", "testKptName")
    ∷ ("log-firewalls", "true")
    ∷ ("mgmt-name", "testMgmtName")
    ∷ []

pushed_cong :
    {A : Type 0} (g k : A → Action)
    → ((x : A) → g x ≡ k x)
    → (xs : List A) (s : Actions) → pushed g xs s ≡ pushed k xs s
pushed_cong g k h [] s = refl
pushed_cong g k h (x ∷ xs) s = ap (λ a. pushed g xs (a ∷ s)) (h x) ∙ pushed_cong g k h xs (k x ∷ s)

join_two :
    (a b c : String)
    → IsOpen a
    → IsPart b
    → is_absolute c ≡ false
    → path_join (path_join a b) c ≡ a <> ("/" <> (b <> ("/" <> c)))
join_two a b c ha hb hc =
    ap (λ p. path_join p c) (path_join_open a b ha hb.1)
    ∙ path_join_open (a <> ("/" <> b)) c (IsOpen-behind a b hb.0) hc
    ∙ rw (append_assoc, append_assoc) refl

gcp_path_lem :
    (a p : String) → IsOpen a → is_absolute p ≡ false → gcp_path a p ≡ a <> ("/gcp/" <> p)
unfolding gcp_path ends_with_slash
gcp_path_lem a p ha hp =
    join_two a "gcp" p ha ((refl, refl), refl) hp
    ∙ ap (λ t. a <> t) (sym (append_assoc "/" "gcp" ("/" <> p)) ∙ sym (append_assoc "/gcp" "/" p))

module _ (host : Host) (root : String) where
  -- The old data are removed, if there are any.
  pub data Cleared : Actions → Actions → Type 0 where
    removed :
        (s : Actions)
        → host.exists s (root <> "/tests/testdata_gcp_kpt") ≡ true
        → Cleared s (remove_tree (root <> "/tests/testdata_gcp_kpt") ∷ s)
    nothing_there :
        (s : Actions) → host.exists s (root <> "/tests/testdata_gcp_kpt") ≡ false → Cleared s s

  -- A source is copied to the same place below the data, as a tree or as a file, if it is there.
  pub data Copied (p : String) : Actions → Actions → Type 0 where
    tree :
        (s : Actions)
        → host.exists s (root <> ("/gcp/" <> p)) ≡ true
        → host.is_dir s (root <> ("/gcp/" <> p)) ≡ true
        → Copied p s
            (copy_tree (root <> ("/gcp/" <> p)) (root <> ("/tests/testdata_gcp_kpt/gcp/" <> p)) ∷ s)
    file :
        (s : Actions)
        → host.exists s (root <> ("/gcp/" <> p)) ≡ true
        → host.is_dir s (root <> ("/gcp/" <> p)) ≡ false
        → Copied p s
            (copy (root <> ("/gcp/" <> p)) (root <> ("/tests/testdata_gcp_kpt/gcp/" <> p)) ∷ s)
    absent : (s : Actions) → host.exists s (root <> ("/gcp/" <> p)) ≡ false → Copied p s s

  -- kpt is run for one setter, in the copy of the package.
  abbrev pub set_in_copy : String → String × String → Action
  set_in_copy kpt (k, v) =
      run (kpt ∷ "cfg" ∷ "set" ∷ "." ∷ k ∷ v ∷ []) (some (root <> "/tests/testdata_gcp_kpt/gcp"))

  -- From no actions: the data are cleared, `v2` and `Kptfile` are copied, and the setters are set.
  abbrev pub Regenerated : String → Actions → Type 0
  Regenerated kpt t =
      (a c : Actions) × Cleared [] a
      × Steps Copied ("v2" ∷ "Kptfile" ∷ []) a c
      × (t ≡ pushed (set_in_copy kpt) setter_table c)

  module _ (open_ : IsOpen root) where
    data_dir_lem : data_dir_of root ≡ root <> "/tests/testdata_gcp_kpt"
    unfolding data_dir_of ends_with_slash
    data_dir_lem = join_two root "tests" "testdata_gcp_kpt" open_ ((refl, refl), refl) refl

    data_dir-IsOpen : IsOpen (root <> "/tests/testdata_gcp_kpt")
    unfolding ends_with_slash
    data_dir-IsOpen =
        IsOpen-glue root ("tests" ∷ "testdata_gcp_kpt" ∷ []) open_
          (((refl, refl), refl), (((refl, refl), refl), tt))

    src_lem : (p : String) → is_absolute p ≡ false → gcp_path root p ≡ root <> ("/gcp/" <> p)
    src_lem p h = gcp_path_lem root p open_ h

    dst_lem :
        (p : String)
        → is_absolute p ≡ false
        → gcp_path (data_dir_of root) p ≡ root <> ("/tests/testdata_gcp_kpt/gcp/" <> p)
    dst_lem p h =
        ap (λ d. gcp_path d p) data_dir_lem
        ∙ gcp_path_lem (root <> "/tests/testdata_gcp_kpt") p data_dir-IsOpen h
        ∙ append_assoc root "/tests/testdata_gcp_kpt" ("/gcp/" <> p)
        ∙ ap (λ t. root <> t) (sym (append_assoc "/tests/testdata_gcp_kpt" "/gcp/" p))

    clear-Cleared : (s : Actions) → Cleared s (clear host (data_dir_of root) s).1
    unfolding clear
    clear-Cleared s =
        rw data_dir_lem (elim (Bool-cases (host.exists s (root <> "/tests/testdata_gcp_kpt"))) [
          | inl e ↦ rw e (removed s e)
          | inr e ↦ rw e (nothing_there s e)
        ])

    copy_source-Copied :
        (p : String) (s : Actions)
        → is_absolute p ≡ false
        → Copied p s (copy_source host root p s).1
    unfolding copy_source
    copy_source-Copied p s h =
        rw (src_lem p h, dst_lem p h)
          (elim (Bool-cases (host.exists s (root <> ("/gcp/" <> p)))) [
            | inr e ↦ rw e (absent s e)
            | inl e ↦ elim (Bool-cases (host.is_dir s (root <> ("/gcp/" <> p)))) [
              | inl f ↦ rw (e, f) (tree s e f)
              | inr f ↦ rw (e, f) (file s e f)
            ]
          ])

    set_command_lem :
        (kpt : String) (kv : String × String)
        → set_command kpt (data_dir_of root) kv ≡ set_in_copy kpt kv
    unfolding set_command
    set_command_lem kpt (k, v) =
        ap (λ d. run (kpt ∷ "cfg" ∷ "set" ∷ "." ∷ k ∷ v ∷ []) (some d))
          (ap (λ d. path_join d "gcp") data_dir_lem
            ∙ path_join_open (root <> "/tests/testdata_gcp_kpt") "gcp" data_dir-IsOpen refl
            ∙ append_assoc root "/tests/testdata_gcp_kpt" "/gcp")

    write_data-Regenerated :
        (kpt : String)
        → (write_data host kpt root []).0 ≡ ok tt
        → Regenerated kpt (write_data host kpt root []).1
    unfolding write_data
    write_data-Regenerated kpt h =
        let set = set_command kpt (data_dir_of root) in
        let sets = for_each (λ kv. act host (set kv)) setters in
        let copies = for_each (copy_source host root) subdirs in
        let (_, _, e) = ok_of_bind (clear host (data_dir_of root)) (λ _. copies >> sets) [] tt h in
        let a = (clear host (data_dir_of root) []).1 in
        let (_, g, f) = ok_of_bind copies (λ _. sets) a tt (ap (λ r. r.0) (sym e) ∙ h) in
        (
          a,
          (copies a).1,
          clear-Cleared [],
          for_each-Steps Copied (λ p. is_absolute p ≡ false) (copy_source host root)
              (λ p s hp _. copy_source-Copied p s hp) subdirs a (refl, (refl, tt)) g,
          ap (λ r. r.1) (e ∙ f)
              ∙ for_each-pushed host set setters (copies a).1 (ap (λ r. r.0) (sym (e ∙ f)) ∙ h)
              ∙ pushed_cong set (set_in_copy kpt) (set_command_lem kpt) setters (copies a).1,
        )

-- The machine gives `out` for the root of the repository.
abbrev pub FindsRoot : Host → String → Type 0
FindsRoot host out = host.check_output [] ("git" ∷ "rev-parse" ∷ "--show-toplevel" ∷ []) ≡ ok out

-- Where git gives a root that is not empty and does not end in "/", a run of write_gcp_kpt that
-- ends well has removed the test data if there were any, then copied gcp/v2 and gcp/Kptfile to
-- their place in the test data, each as a tree or as a file and if it is there, and then run kpt
-- in the copy once for each of the eight setters, in order, with its value.
pub write_gcp_kpt-Regenerated :
    (host : Host) (kpt out : String)
    → FindsRoot host out
    → IsOpen (strip out)
    → (write_gcp_kpt host kpt []).0 ≡ ok tt
    → Regenerated host (strip out) kpt (write_gcp_kpt host kpt []).1
unfolding write_gcp_kpt
write_gcp_kpt-Regenerated host kpt out found open_ h =
    let e : write_gcp_kpt host kpt [] ≡ write_data host kpt (strip out) [] = rw found refl in
    subst (λ r. Regenerated host (strip out) kpt r.1) (sym e)
      (write_data-Regenerated host (strip out) open_ kpt (ap (λ r. r.0) (sym e) ∙ h))
