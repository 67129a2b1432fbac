-- ===== src/Kptfile/Comments/Laws/Lines.antt =====
-- One line: what is left has no comment.
use Prim.Native.Char.{Char, code}
use test_minio.Base.{
  String, ℕ, ◌≡◌, refl, not, ◌&&◌, Option, none, some, List, [], ◌∷◌, ◌<>◌, ◌==◌, arith, inl, inr,
  Bool-cases, ◌≢◌, ◌=ℕ=◌,
}
use test_minio.Base.Text.{contains, rstrip, cut, is_space, before_cut}
use test_minio.Base.Text.Split.{Lacks, Lacks-append}
use test_minio.Base.Text.Last.{has_char-Lacks}
use test_minio.Base.Text.{has_char}
use test_minio.Kptfile.Comments.{strip_parts, strip_line, strip_lines}

cut-Lacks : (d : ℕ) (s : String) → Lacks d s → cut d s ≡ none
unfolding cut
cut-Lacks d String.[] h = refl
cut-Lacks d (String.◌∷◌ c s) h = let ne = h.0 in rw (cut-Lacks d s h.1) (ground arith)

-- What stands before the cut.
BeforeLacks : ℕ → Option (String × String) → Type 0
BeforeLacks d none = Unit
BeforeLacks d (some (a, b)) = Lacks d a

BeforeLacks-cons :
    (d : ℕ) (c : Char) (o : Option (String × String))
    → code c ≢ d
    → BeforeLacks d o
    → BeforeLacks d (before_cut c o)
unfolding BeforeLacks
BeforeLacks-cons d c none ne h = tt
BeforeLacks-cons d c (some (a, b)) ne h = (ne, h)

cut-BeforeLacks : (d : ℕ) (s : String) → BeforeLacks d (cut d s)
unfolding cut BeforeLacks
cut-BeforeLacks d String.[] = tt
cut-BeforeLacks d (String.◌∷◌ c s) = elim (Bool-cases (code c =ℕ= d)) [
  | inl y ↦ rw y tt
  | inr n ↦ rw n (BeforeLacks-cons d c (cut d s) (λ e. absurd (ground arith)) (cut-BeforeLacks d s))
]

Lacks-rstrip : (d : ℕ) (s : String) → Lacks d s → Lacks d (rstrip s)
unfolding rstrip
Lacks-rstrip d String.[] h = tt
Lacks-rstrip d (String.◌∷◌ c s) h = elim (Bool-cases (rstrip s == "" && is_space (code c))) [
  | inl y ↦ rw y tt
  | inr n ↦ rw n (h.0, Lacks-rstrip d s h.1)
]

strip_parts_again :
    (l : String) (o : Option (String × String))
    → cut b'#' l ≡ o
    → BeforeLacks b'#' o
    → strip_line (strip_parts l o) ≡ strip_parts l o
unfolding strip_line BeforeLacks
strip_parts_again l none e h = rw e refl
strip_parts_again l (some (before, comment)) e h =
    elim (Bool-cases (not (before == "") && contains "x-kustomize" comment)) [
      | inl y ↦ rw y (
          rw
            (cut-Lacks b'#' (rstrip before <> "\n") (
              Lacks-append b'#' (rstrip before) "\n" (Lacks-rstrip b'#' before h)
                (has_char-Lacks b'#' "\n" (unfold has_char in refl))))
            refl)
      | inr n ↦ rw n (rw (e, n) refl)
    ]

strip_line_again : (l : String) → strip_line (strip_line l) ≡ strip_line l
unfolding strip_line
strip_line_again l = strip_parts_again l (cut b'#' l) refl (cut-BeforeLacks b'#' l)

pub strip_lines_again : (lines : List String) → strip_lines (strip_lines lines) ≡ strip_lines lines
unfolding strip_lines
strip_lines_again [] = refl
strip_lines_again (l ∷ lines) = rw (strip_line_again l, strip_lines_again lines) refl
