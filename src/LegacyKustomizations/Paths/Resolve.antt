-- ===== src/LegacyKustomizations/Paths/Resolve.antt =====
-- Going down by names and up again, and the paths that `generate` writes.
use Prim.Native.Nat.{ℕ, zero, suc}
use Prim.Native.Char.{Char, char}
use text.Mathlib.TextLemmas.{nil-append, append-nil, append_assoc}
use test_minio.Base.{
  String, ◌<>◌, ◌≡◌, refl, ap, sym, ◌∙◌, ◌==◌, false, List, [], ◌∷◌, ◌++◌, arith, All, length,
  length-append, All-append,
}
use test_minio.Base.Text.{split}
use test_minio.Base.Text.Split.{Lacks, glue, split-append, split_lacking, split-join}
use test_minio.Base.FilePath.{is_absolute, ends_with_slash, path_join, join_all}
use test_minio.LegacyKustomizations.Rewrite.{num_parents, parents, join_pieces, rewrite_path}
use test_minio.LegacyKustomizations.Paths.{parent, enter, resolve, place}
use test_minio.LegacyKustomizations.Paths.Joins.{
  IsOpen, IsPart, IsOpen-glue, join_all-glue, path_join_behind, path_join_open, from_index-append,
}

-- The name of a file or a directory.
abbrev pub IsName : String → Type 0
IsName s = Lacks b'/' s × ((s == "") ≡ false) × ((s == ".") ≡ false) × ((s == "..") ≡ false)

pub resolve-append :
    (stack p q : List String) → resolve stack (p ++ q) ≡ resolve (resolve stack p) q
unfolding resolve
resolve-append stack [] q = refl
resolve-append stack (s ∷ p) q = resolve-append (enter stack s) p q

enter-IsName : (stack : List String) (s : String) → IsName s → enter stack s ≡ s ∷ stack
unfolding enter
enter-IsName stack s h = ground arith

-- One ".." in front goes up as one behind.
resolve-parents :
    (stack : List String) (n : ℕ)
    → resolve (parent stack) (parents n) ≡ parent (resolve stack (parents n))
unfolding resolve parents enter
resolve-parents stack zero = refl
resolve-parents stack (suc n) = resolve-parents (parent stack) n

resolve_nil : (stack : List String) → resolve stack [] ≡ stack
unfolding resolve
resolve_nil stack = refl

resolve_cons :
    (stack : List String) (s : String) (p : List String)
    → resolve stack (s ∷ p) ≡ resolve (enter stack s) p
unfolding resolve
resolve_cons stack s p = refl

resolve_up :
    (stack : List String) (n : ℕ)
    → resolve stack (parents (suc n)) ≡ parent (resolve stack (parents n))
unfolding resolve parents enter
resolve_up stack n = resolve-parents stack n

-- As many ".." as there are names lead back.
pub resolve_back :
    (stack names : List String)
    → All IsName names
    → resolve (resolve stack names) (parents (length names)) ≡ stack
resolve_back stack [] h = unfold resolve parents in refl
resolve_back stack (s ∷ names) (hs, h) = rw resolve_cons (
    rw (enter-IsName stack s hs) (
      resolve_up (resolve (s ∷ stack) names) (length names)
      ∙ ap parent (resolve_back (s ∷ stack) names h)
      ∙ unfold parent in refl))

abbrev slash : Char
slash = char b'/' tt

pub Lacks-IsName : (ss : List String) → All IsName ss → All (Lacks b'/') ss
Lacks-IsName [] h = tt
Lacks-IsName (s ∷ ss) (hs, h) = (hs.0, Lacks-IsName ss h)

split-glue : (ss : List String) → All (Lacks b'/') ss → split (glue "/" ss) "/" ≡ "" ∷ ss
split-glue ss h = rw nil-append at (split-join slash "" "" ss tt h)

num_parents_lem :
    (root : String) (segs : List String)
    → All IsName segs
    → num_parents root (root <> glue "/" segs) ≡ suc (length segs)
num_parents_lem root segs h =
    unfold num_parents in rw (from_index-append, split-glue segs (Lacks-IsName segs h)) refl

ends_with_slash-Lacks : (s : String) → Lacks b'/' s → ends_with_slash s ≡ false
unfolding ends_with_slash
ends_with_slash-Lacks String.[] h = refl
ends_with_slash-Lacks (String.◌∷◌ c String.[]) h = ground arith
ends_with_slash-Lacks (String.◌∷◌ c (String.◌∷◌ d s)) h = ends_with_slash-Lacks (String.◌∷◌ d s) h.1

pub is_absolute-Lacks : (s : String) → Lacks b'/' s → is_absolute s ≡ false
is_absolute-Lacks String.[] h = refl
is_absolute-Lacks (String.◌∷◌ c s) h = ground arith

pub IsPart-IsName : (s : String) → IsName s → IsPart s
IsPart-IsName s (lacks, ne, dot, up) =
    ((ne, ends_with_slash-Lacks s lacks), is_absolute-Lacks s lacks)

All-IsPart : (ss : List String) → All IsName ss → All IsPart ss
All-IsPart [] h = tt
All-IsPart (s ∷ ss) (hs, h) = (IsPart-IsName s hs, All-IsPart ss h)

-- Names behind a directory lead down from it.
pub resolve-glue :
    (root : String) (names : List String)
    → All IsName names
    → resolve [] (split (root <> glue "/" names) "/") ≡ resolve (resolve [] (split root "/")) names
resolve-glue root [] h = rw append-nil (unfold resolve in refl)
resolve-glue root (s ∷ names) (hs, h) =
    ap (λ p. resolve [] (split p "/")) (rw (append_assoc, append_assoc) refl)
    ∙ resolve-glue (root <> ("/" <> s)) names h
    ∙ ap (λ st. resolve st names)
        (ap (resolve [])
            (split-append slash root s ∙ ap (split root "/" ++◌) (split_lacking slash s hs.0))
          ∙ resolve-append [] (split root "/") (s ∷ [])
          ∙ resolve_cons (resolve [] (split root "/")) s []
          ∙ resolve_nil (enter (resolve [] (split root "/")) s))
    ∙ sym (resolve_cons (resolve [] (split root "/")) s names)

length_snoc : (segs : List String) (d : String) → length (segs ++ d ∷ []) ≡ suc (length segs)
length_snoc segs d = rw length-append (omega arith)

All-snoc :
    (segs : List String) (d : String) → All IsName segs → IsName d → All IsName (segs ++ d ∷ [])
All-snoc segs d h hd = All-append IsName segs (d ∷ []) h (hd, tt)

glue_snoc :
    (segs : List String) (d : String) → glue "/" (segs ++ d ∷ []) ≡ glue "/" segs <> ("/" <> d)
glue_snoc [] d = rw (nil-append, append-nil) refl
glue_snoc (s ∷ segs) d = rw (glue_snoc segs d, append_assoc, append_assoc) refl

-- ".." joined as often as there are parents
unfoldable pub up_path : ℕ → String
up_path k = ".." <> glue "/" (parents k)

pub parents-IsPart : (n : ℕ) → All IsPart (parents n)
unfolding parents ends_with_slash
parents-IsPart zero = tt
parents-IsPart (suc n) = (((refl, refl), refl), parents-IsPart n)

pub up_path-IsOpen : (k : ℕ) → IsOpen (up_path k)
unfolding up_path ends_with_slash
up_path-IsOpen k = IsOpen-glue ".." (parents k) (refl, refl) (parents-IsPart k)

rewrite_path_lem :
    (k : ℕ) (app b : String)
    → is_absolute app ≡ false
    → is_absolute b ≡ false
    → rewrite_path (suc k) app b ≡ up_path k <> ("/" <> path_join app b)
unfolding rewrite_path up_path parents join_pieces join_all ends_with_slash
rewrite_path_lem k app b ha hb =
    join_all-glue ".." (parents k) (app ∷ b ∷ []) (refl, refl) (parents-IsPart k)
    ∙ path_join_behind (up_path k) app b (up_path-IsOpen k) ha hb

parents-Lacks : (n : ℕ) → All (Lacks b'/') (parents n)
unfolding parents
parents-Lacks zero = tt
parents-Lacks (suc n) =
    (((λ h. absurd (omega arith)), ((λ h. absurd (omega arith)), tt)), parents-Lacks n)

pub split-up_path : (k : ℕ) → split (up_path k) "/" ≡ parents (suc k)
unfolding up_path parents
split-up_path k = split-join slash "" ".." (parents k) (parents-Lacks 1).0 (parents-Lacks k)

-- The parts of a rewritten path: up to the root, and from there to the file of the application.
split-rewrite_path :
    (k : ℕ) (app b : String)
    → is_absolute app ≡ false
    → is_absolute b ≡ false
    → split (rewrite_path (suc k) app b) "/" ≡ parents (suc k) ++ split (path_join app b) "/"
split-rewrite_path k app b ha hb = rw (rewrite_path_lem k app b ha hb) (
    split-append slash (up_path k) (path_join app b)
    ∙ ap (λ ps. ps ++ split (path_join app b) "/") (split-up_path k))

-- The directory of the application, below the test directory.
test_dir_lem :
    (root d : String) (segs : List String)
    → IsOpen root
    → All IsName segs
    → IsName d
    → resolve [] (split (path_join (root <> glue "/" segs) d) "/")
      ≡ resolve (resolve [] (split root "/")) (segs ++ d ∷ [])
test_dir_lem root d segs hr hs hd =
    ap (λ p. resolve [] (split p "/"))
      (path_join_open (root <> glue "/" segs) d (IsOpen-glue root segs hr (All-IsPart segs hs))
          (is_absolute-Lacks d hd.0)
        ∙ rw (append_assoc, glue_snoc) refl)
    ∙ resolve-glue root (segs ++ d ∷ []) (All-snoc segs d hs hd)

-- From there, the parents lead back to the root.
back_to_root :
    (stack : List String) (d : String) (segs : List String)
    → All IsName segs
    → IsName d
    → resolve (resolve stack (segs ++ d ∷ [])) (parents (suc (length segs))) ≡ stack
back_to_root stack d segs hs hd =
    rw length_snoc at (resolve_back stack (segs ++ d ∷ []) (All-snoc segs d hs hd))

-- For a test directory below the root of the repository, a path of an application, rewritten with
-- as many parents as generate counts, leads from the directory of the application in the tests to
-- the same place as the path leads from the root through the path of the application, where both
-- are relative.
pub rewrite_path-place :
    (root d app b : String) (segs : List String)
    → IsOpen root
    → All IsName segs
    → IsName d
    → is_absolute app ≡ false
    → is_absolute b ≡ false
    → place
        (path_join (root <> glue "/" segs) d)
        (rewrite_path (num_parents root (root <> glue "/" segs)) app b)
      ≡ place root (path_join app b)
rewrite_path-place root d app b segs hr hs hd ha hb =
    let stack = resolve [] (split root "/") in
    rw
      (
        num_parents_lem root segs hs,
        test_dir_lem root d segs hr hs hd,
        split-rewrite_path (length segs) app b ha hb,
      )
      (resolve-append (resolve stack (segs ++ d ∷ [])) (parents (suc (length segs)))
          (split (path_join app b) "/")
        ∙ ap (λ st. resolve st (split (path_join app b) "/")) (back_to_root stack d segs hs hd))
