-- ===== src/Kptfile/Comments.antt =====
-- `KptCreator.strip_comments`: the files are those of a store, by their paths, as lists of lines, and
-- `os.walk` is given by the directories that it visits, each with the names of its files.
pub mod Laws
use test_minio.Base.{
  String, Bool, true, false, not, ◌&&◌, Option, none, some, List, [], ◌∷◌, map, ◌<>◌, ◌==◌,
  if◌then◌else◌, Dict, lookup, insert, Result, ok, err, os_error, ◌>>=◌,
}
use test_minio.Base.Text.{contains, rstrip, cut}
use test_minio.Base.FilePath.{path_join, splitext}

abbrev pub Store : Type 0
Store = Dict (List String)

-- The line, and its parts around the first "#".
abbrev pub strip_parts : String → Option (String × String) → String
strip_parts l none = l
strip_parts l (some (before, comment)) =
    if not (before == "") && contains "x-kustomize" comment then rstrip before <> "\n" else l

-- One line, with its newline: what `[^#]+#.*x-kustomize.*` matches is cut at the first "#", which is not
-- the first character and has "x-kustomize" behind it.
pub strip_line : String → String
strip_line l = strip_parts l (cut b'#' l)

unfoldable pub strip_lines : List String → List String
unfolding strip_line
strip_lines [] = []
strip_lines (l ∷ lines) = strip_line l ∷ strip_lines lines

-- Reading a file and writing it back; opening one that is not there raises.
abbrev pub rewrite : String → Store → Option (List String) → Result Store
rewrite p store none = err os_error
rewrite p store (some lines) = ok (insert p (strip_lines lines) store)

unfoldable pub strip_path : String → Store → Result Store
strip_path p store = rewrite p store (lookup p store)

-- the body of the loop over the files
unfoldable pub strip_file : String → String → Store → Result Store
strip_file root f store =
    if (splitext f).1 == ".yaml" then strip_path (path_join root f) store else ok store

unfoldable pub strip_files : String → List String → Store → Result Store
strip_files root [] store = ok store
strip_files root (f ∷ files) store = do s ← strip_file root f store; strip_files root files s

unfoldable pub strip_comments : List (String × List String) → Store → Result Store
strip_comments [] store = ok store
strip_comments ((root, files) ∷ walk) store = do
  s ← strip_files root files store
  strip_comments walk s
