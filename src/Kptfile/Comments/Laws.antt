-- ===== src/Kptfile/Comments/Laws.antt =====
-- Stripping a line twice, and what a run leaves in the store.
mod Lines
use test_minio.Base.{
  ◌||◌, String, ◌≡◌, refl, sym, ◌∙◌, ap, Bool, true, false, Option, none, some, List, [], ◌∷◌, ◌++◌,
  ◌==◌, if◌then◌else◌, Dict, lookup, insert, lookup-insert, Result, ok, err, ◌>>=◌, elem, All,
  Result-cases, arith, eq_iff, inl, inr, Bool-cases, Option-cases, os_error, subst, All-append,
}
use mathlib.Core.Path.{fun_ext}
use test_minio.Base.FilePath.{path_join, splitext}
use test_minio.Kptfile.Comments.{
  Store, strip_lines, strip_path, strip_file, strip_files, strip_comments,
}
use Lines.{strip_lines_again}

-- the paths of the YAML files in a directory, and in all that are visited
pub yaml_files : String → List String → List String
yaml_files root [] = []
yaml_files root (f ∷ files) =
    if (splitext f).1 == ".yaml"
    then path_join root f ∷ yaml_files root files
    else yaml_files root files

unfoldable pub yaml_paths : List (String × List String) → List String
unfolding yaml_files
yaml_paths [] = []
yaml_paths ((root, files) ∷ walk) = yaml_files root files ++ yaml_paths walk

strip_paths : List String → Store → Result Store
strip_paths [] store = ok store
strip_paths (p ∷ ps) store = strip_path p store >>= strip_paths ps

strip_paths-append :
    (ps qs : List String) (store : Store)
    → strip_paths (ps ++ qs) store ≡ (strip_paths ps store >>= strip_paths qs)
unfolding strip_paths
strip_paths-append [] qs store = refl
strip_paths-append (p ∷ ps) qs store = elim (Result-cases (strip_path p store)) [
  | inl (s, e) ↦ rw e (strip_paths-append ps qs s)
  | inr (raised, e) ↦ rw e refl
]

strip_files-paths :
    (root : String) (files : List String) (store : Store)
    → strip_files root files store ≡ strip_paths (yaml_files root files) store
unfolding strip_files strip_file yaml_files strip_paths
strip_files-paths root [] store = refl
strip_files-paths root (f ∷ files) store = elim (Bool-cases ((splitext f).1 == ".yaml")) [
  | inl y ↦ rw y (
      ap (λ next. strip_path (path_join root f) store >>= next)
        (fun_ext (λ s. strip_files-paths root files s)))
  | inr n ↦ rw n (strip_files-paths root files store)
]

strip_comments-paths :
    (walk : List (String × List String)) (store : Store)
    → strip_comments walk store ≡ strip_paths (yaml_paths walk) store
unfolding strip_comments yaml_paths
strip_comments-paths [] store = unfold strip_paths in refl
strip_comments-paths ((root, files) ∷ walk) store =
    ap (λ r. r >>= strip_comments walk) (strip_files-paths root files store)
    ∙ ap (λ next. strip_paths (yaml_files root files) store >>= next)
        (fun_ext (strip_comments-paths walk))
    ∙ sym (strip_paths-append (yaml_files root files) (yaml_paths walk) store)

-- what stripping makes of a file that is there
abbrev pub stripped : Option (List String) → Option (List String)
stripped none = none
stripped (some lines) = some (strip_lines lines)

abbrev pub Present : Store → String → Type 0
Present store p = (lines : List String) × (lookup p store ≡ some lines)

Present-insert :
    (q p : String) (lines : List String) (store : Store)
    → Present store p
    → Present (insert q lines store) p
Present-insert q p lines store (old, e) = elim (Bool-cases (q == p)) [
  | inl y ↦ (lines, lookup-insert q p lines store ∙ rw y refl)
  | inr n ↦ (old, lookup-insert q p lines store ∙ rw n e)
]

All-Present :
    (q : String) (lines : List String) (store : Store) (ps : List String)
    → All (Present store) ps
    → All (Present (insert q (strip_lines lines) store)) ps
All-Present q lines store [] h = tt
All-Present q lines store (p ∷ ps) h =
    (Present-insert q p (strip_lines lines) store h.0, All-Present q lines store ps h.1)

ne_comm : (q p : String) → q == p ≡ false → p == q ≡ false
ne_comm q p n = ground (arith, eq_iff q p, eq_iff p q)

if_same {ℓ} : {A : Type ℓ} (b : Bool) (x : A) → (if b then x else x) ≡ x
if_same true x = refl
if_same false x = refl

-- Stripping one path and then the others, seen at a path.
stripped_step :
    (q p : String) (lines : List String) (ps : List String) (store : Store)
    → lookup q store ≡ some lines
    → (if elem p ps
        then stripped (lookup p (insert q (strip_lines lines) store))
        else lookup p (insert q (strip_lines lines) store))
      ≡ (if p == q || elem p ps then stripped (lookup p store) else lookup p store)
stripped_step q p lines ps store e = elim (Bool-cases (q == p)) [
  | inl y ↦
      let same = (eq_iff q p).0 y in
      rw
        (
          lookup-insert,
          y,
          (eq_iff p q).1 (sym same),
          sym (ap (λ r. lookup r store) same) ∙ e,
          strip_lines_again,
        )
        (if_same (elem p ps) (some (strip_lines lines)))
  | inr n ↦ rw (lookup-insert, n, ne_comm q p n) refl
]

-- Each path of the list is stripped, and the others are as they were.
abbrev pub IsStripped : List String → Store → Store → Type 0
IsStripped ps store store' =
    (p : String)
    → lookup p store' ≡ (if elem p ps then stripped (lookup p store) else lookup p store)

strip_paths-IsStripped :
    (ps : List String) (store : Store)
    → All (Present store) ps
    → (store' : Store) × (strip_paths ps store ≡ ok store') × IsStripped ps store store'
unfolding strip_paths strip_path elem
strip_paths-IsStripped [] store h = (store, refl, λ p. refl)
strip_paths-IsStripped (q ∷ ps) store ((lines, e), h) =
    let next = insert q (strip_lines lines) store in
    let (store', f, g) = strip_paths-IsStripped ps next (All-Present q lines store ps h) in
    (store', rw e f, λ p. g p ∙ stripped_step q p lines ps store e)

-- Where each YAML file that is visited can be opened, strip_comments ends well, with the lines of
-- these files stripped once, however often a file is visited, and every other file as it was.
pub strip_comments-IsStripped :
    (walk : List (String × List String)) (store : Store)
    → All (Present store) (yaml_paths walk)
    → (store' : Store) × (strip_comments walk store ≡ ok store')
      × IsStripped (yaml_paths walk) store store'
strip_comments-IsStripped walk store h =
    let (store', e, g) = strip_paths-IsStripped (yaml_paths walk) store h in
    (store', strip_comments-paths walk store ∙ e, g)
