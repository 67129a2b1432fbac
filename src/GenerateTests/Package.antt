-- ===== src/GenerateTests/Package.antt =====
-- The path to its package that a test is given.
use Prim.Native.Nat.{ℕ, zero, suc}
use Prim.Native.Char.{char}
use text.Mathlib.TextLemmas.{cons-append, append_assoc}
use test_minio.Base.{
  String, ◌<>◌, ◌≡◌, refl, ap, ◌∙◌, false, List, [], ◌∷◌, ◌++◌, All, length, arith,
}
use test_minio.Base.Text.{split}
use test_minio.Base.Text.Split.{join, glue, split-join, split-append}
use test_minio.Base.FilePath.{is_absolute, path_join, join_all, ends_with_slash}
use test_minio.LegacyKustomizations.Rewrite.{parents, join_pieces}
use test_minio.LegacyKustomizations.Paths.{resolve, place}
use test_minio.LegacyKustomizations.Paths.Joins.{IsOpen, IsOpen-glue, join_all-glue, path_join_open}
use test_minio.LegacyKustomizations.Paths.Resolve.{
  IsName, resolve-append, resolve_back, resolve-glue, up_path, split-up_path, up_path-IsOpen,
  parents-IsPart, Lacks-IsName,
}
use test_minio.GenerateTests.{package_dir, test_dir}

-- A path of names is relative.
join-relative : (s : String) (ss : List String) → IsName s → is_absolute (join "/" (s ∷ ss)) ≡ false
join-relative String.[] ss h = absurd (ground arith)
join-relative (String.◌∷◌ c s) ss h = rw cons-append (ground arith)

parents_snoc : (n : ℕ) (rest : List String) → parents n ++ ".." ∷ rest ≡ parents (suc n) ++ rest
unfolding parents
parents_snoc zero rest = refl
parents_snoc (suc n) rest = ap (".." ∷◌) (parents_snoc n rest)

up_join :
    (k : ℕ) (r : String)
    → is_absolute r ≡ false
    → join_pieces (parents (suc k) ++ ".." ∷ r ∷ []) ≡ up_path (suc k) <> ("/" <> r)
unfolding parents join_pieces join_all up_path ends_with_slash
up_join k r h =
    ap (join_all "..") (parents_snoc k (r ∷ []))
    ∙ join_all-glue ".." (parents (suc k)) (r ∷ []) (refl, refl) (parents-IsPart (suc k))
    ∙ path_join_open (up_path (suc k)) r (up_path-IsOpen (suc k)) h

split-path :
    (s : String) (ss : List String)
    → IsName s
    → All IsName ss
    → split (join "/" (s ∷ ss)) "/" ≡ s ∷ ss
split-path s ss h hs = split-join (char b'/' tt) "" s ss h.0 (Lacks-IsName ss hs)

-- The parts of the path: up to the root, and from there to the package.
split-package_dir :
    (s : String) (ss : List String)
    → IsName s
    → All IsName ss
    → split (package_dir (join "/" (s ∷ ss))) "/"
      ≡ parents (suc (suc (length ss))) ++ split (join "/" (s ∷ ss)) "/"
unfolding package_dir
split-package_dir s ss h hs =
    let r = join "/" (s ∷ ss) in
    ap (λ ps. split (join_pieces (parents (length ps) ++ ".." ∷ r ∷ [])) "/") (split-path s ss h hs)
    ∙ ap (λ p. split p "/") (up_join (length ss) r (join-relative s ss h))
    ∙ split-append (char b'/' tt) (up_path (suc (length ss))) r
    ∙ ap (λ ps. ps ++ split r "/") (split-up_path (suc (length ss)))

test_dir_path :
    (root s : String) (ss : List String)
    → IsOpen root
    → IsName s
    → test_dir root (join "/" (s ∷ ss)) ≡ root <> glue "/" ("tests" ∷ s ∷ ss)
unfolding test_dir ends_with_slash
test_dir_path root s ss hr h =
    ap (λ p. path_join p (join "/" (s ∷ ss))) (path_join_open root "tests" hr refl)
    ∙ path_join_open (root <> ("/" <> "tests")) (join "/" (s ∷ ss))
        (IsOpen-glue root ("tests" ∷ []) hr (((refl, refl), refl), tt)) (join-relative s ss h)
    ∙ rw (append_assoc, append_assoc) refl

-- For a package in directories below the root of the repository, the path that its test is given
-- leads from the directory of the test to the package.
pub package_dir-place :
    (root s : String) (ss : List String)
    → IsOpen root
    → IsName s
    → All IsName ss
    → place (test_dir root (join "/" (s ∷ ss))) (package_dir (join "/" (s ∷ ss)))
      ≡ place root (join "/" (s ∷ ss))
package_dir-place root s ss hr h hs =
    let stack = resolve [] (split root "/") in
    let r = join "/" (s ∷ ss) in
    let names = "tests" ∷ s ∷ ss in
    rw
      (
        test_dir_path root s ss hr h,
        split-package_dir s ss h hs,
        resolve-glue root names (tests_IsName, (h, hs)),
      )
      (resolve-append (resolve stack names) (parents (suc (suc (length ss)))) (split r "/")
        ∙ ap (λ st. resolve st (split r "/")) (resolve_back stack names (tests_IsName, (h, hs))))
  where
    tests_IsName : IsName "tests"
    tests_IsName = grind arith
