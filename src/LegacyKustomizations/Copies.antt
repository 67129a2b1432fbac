-- ===== src/LegacyKustomizations/Copies.antt =====
-- The generators that are written: each file of each is copied once, to a name of its own.
use Prim.Native.Nat.{ℕ, suc, ◌+◌, ◌<◌}
use text.Mathlib.TextLemmas.{append_cancel_left, append_cancel_right}
use test_minio.Base.{
  String, ◌<>◌, ◌≡◌, refl, ap, sym, ◌∙◌, false, eq_iff, List, [], ◌∷◌, ◌++◌, ok, arith, elem,
  IsUnique, length, ok-injective,
}
use test_minio.Base.FilePath.{path_join}
use test_minio.Base.Value.{Value}
use test_minio.Base.Decimal.{decimal, decimal-injective}
use test_minio.Base.Exec.{pure, ◌>>=◌, ok_of_bind, ok_of_map}
use test_minio.Host.{Host, Actions, copy, act}
use test_minio.LegacyKustomizations.Generators.{
  GeneratorFiles, params_file, copy_files, write_generators, merged, Copied,
}

-- The names with the numbers from `i` on, one for each file.
pub numbered : ℕ → List String → List String
unfolding params_file
numbered i [] = []
numbered i (f ∷ files) = params_file i ∷ numbered (suc i) files

-- the files of all generators, in order
pub all_files : GeneratorFiles → List String
all_files [] = []
all_files ((name, files) ∷ gens) = files ++ all_files gens

params_file-injective : (i j : ℕ) → params_file i ≡ params_file j → i ≡ j
unfolding params_file
params_file-injective i j h = decimal-injective i j (
    append_cancel_right (decimal i) (decimal j) ".env"
      (append_cancel_left "params_" (decimal i <> ".env") (decimal j <> ".env") h))

params_file_fresh :
    (i j : ℕ) (files : List String) → i < j → elem (params_file i) (numbered j files) ≡ false
unfolding elem numbered
params_file_fresh i j [] h = refl
params_file_fresh i j (f ∷ files) h = ground (
  arith,
  eq_iff (params_file i) (params_file j),
  params_file-injective i j,
  params_file_fresh i (suc j) files (omega arith),
)

-- No two files are copied to the same name.
numbered-IsUnique : (i : ℕ) (files : List String) → IsUnique (numbered i files)
unfolding numbered
numbered-IsUnique i [] = tt
numbered-IsUnique i (f ∷ files) =
    (params_file_fresh i (suc i) files (omega arith), numbered-IsUnique (suc i) files)

module _ (host : Host) (app_test_dir : String) where
  -- the actions with the copies of the files
  pub copied_to : ℕ → List String → Actions → Actions
  unfolding params_file
  copied_to i [] s = s
  copied_to i (f ∷ files) s =
      copied_to (suc i) files (copy f (path_join app_test_dir (params_file i)) ∷ s)

  -- the generators to be written, with the names of their files
  unfoldable pub listed : ℕ → GeneratorFiles → List Value
  unfolding numbered
  listed i [] = []
  listed i ((name, files) ∷ gens) =
      merged host app_test_dir name (numbered i files) ∷ listed (i + length files) gens

  -- What a run of `copy_files` gives where it ends well.
  copy_files-Copies :
      (i : ℕ) (files : List String) (s : Actions) (r : List String × ℕ)
      → (copy_files host app_test_dir i files s).0 ≡ ok r
      → (r ≡ (numbered i files, i + length files))
        × ((copy_files host app_test_dir i files s).1 ≡ copied_to i files s)
  unfolding copy_files numbered copied_to
  copy_files-Copies i [] s r h =
      (sym (ok-injective ([], i) r h) ∙ ap (λ k. ([], k)) (omega arith), refl)
  copy_files-Copies i (f ∷ files) s r h =
      let g : Copied → Copied = λ copied. (params_file i ∷ copied.0, copied.1) in
      let t = copy f (path_join app_test_dir (params_file i)) ∷ s in
      let (u, _, e) =
        ok_of_bind (act host (copy f (path_join app_test_dir (params_file i))))
          (λ _. copy_files host app_test_dir (suc i) files >>= λ copied. pure (g copied)) s r h in
      let (c, d, k, l) =
        ok_of_map (copy_files host app_test_dir (suc i) files) g t r (ap (λ x. x.0) (sym e) ∙ h) in
      let (q, w) = copy_files-Copies (suc i) files t c d in
      (
        k ∙ ap g q ∙ ap (λ n. (params_file i ∷ numbered (suc i) files, n)) (omega arith),
        ap (λ x. x.1) e ∙ l ∙ w,
      )

  copied_to-append :
      (i : ℕ) (xs ys : List String) (s : Actions)
      → copied_to i (xs ++ ys) s ≡ copied_to (i + length xs) ys (copied_to i xs s)
  unfolding copied_to
  copied_to-append i [] ys s = ap (λ k. copied_to k ys s) (omega arith)
  copied_to-append i (x ∷ xs) ys s =
      copied_to-append (suc i) xs ys (copy x (path_join app_test_dir (params_file i)) ∷ s)
      ∙ ap
          (λ k.
            copied_to k ys
              (copied_to (suc i) xs (copy x (path_join app_test_dir (params_file i)) ∷ s)))
          (omega arith)

  -- What a run of `write_generators` gives where it ends well.
  write_generators_lem :
      (i : ℕ) (gens : GeneratorFiles) (s : Actions) (gs : List Value)
      → (write_generators host app_test_dir i gens s).0 ≡ ok gs
      → (gs ≡ listed i gens)
        × ((write_generators host app_test_dir i gens s).1 ≡ copied_to i (all_files gens) s)
  unfolding write_generators listed all_files copied_to
  write_generators_lem i [] s gs h = (sym (ok-injective [] gs h), refl)
  write_generators_lem i ((name, files) ∷ gens) s gs h =
      let g : Copied → List Value → List Value =
        λ c rest. merged host app_test_dir name c.0 ∷ rest in
      let (c, d, e) =
        ok_of_bind (copy_files host app_test_dir i files)
          (λ copied.
            write_generators host app_test_dir copied.1 gens >>= λ rest. pure (g copied rest))
          s gs h in
      let (q, w) = copy_files-Copies i files s c d in
      let t = (copy_files host app_test_dir i files s).1 in
      let (rest, f, k, l) =
        ok_of_map (write_generators host app_test_dir c.1 gens) (g c) t gs
          (ap (λ x. x.0) (sym e) ∙ h) in
      let (x, y) = write_generators_lem c.1 gens t rest f in
      (
        k ∙ ap (g c) x ∙ ap (λ c'. g c' (listed c'.1 gens)) q,
        ap (λ r. r.1) e
            ∙ l
            ∙ y
            ∙ ap (λ c'. copied_to c'.1 (all_files gens) t) q
            ∙ ap (copied_to (i + length files) (all_files gens)) w
            ∙ sym (copied_to-append i files (all_files gens) s),
      )

  -- Where the loop over the generators ends well, it lists for each generator in order the names
  -- of its files, has copied each file once and in order to its name in the test directory, and no
  -- two of the names are the same.
  pub write_generators-Copies :
      (gens : GeneratorFiles) (s : Actions) (gs : List Value)
      → (write_generators host app_test_dir 0 gens s).0 ≡ ok gs
      → (gs ≡ listed 0 gens)
        × ((write_generators host app_test_dir 0 gens s).1 ≡ copied_to 0 (all_files gens) s)
        × IsUnique (numbered 0 (all_files gens))
  write_generators-Copies gens s gs h =
      let (x, y) = write_generators_lem 0 gens s gs h in
      (x, y, numbered-IsUnique 0 (all_files gens))
