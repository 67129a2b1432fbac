-- ===== src/Base/FilePath.antt =====
-- `os.path.join` on POSIX: a part that begins with "/" drops what stands before it, and no "/" is put
-- behind an empty path or another "/".
use Prim.Native.String.{String, ◌++◌ as ◌<>◌}
use Prim.Native.Char.{code}
use mathlib.Core.Bool.{Bool, true, false, ◌||◌, ◌&&◌}
use text.Mathlib.Text.{◌==◌}
use mathlib.Core.Option.{none, some}
use mathlib.Core.List.{List, [], ◌∷◌}
use test_minio.Base.Text.{rsplit}
use test_minio.Base.Tests.{◌=ℕ=◌, if◌then◌else◌}

-- path.startswith("/")
abbrev pub is_absolute : String → Bool
is_absolute String.[] = false
is_absolute (String.◌∷◌ c s) = code c =ℕ= b'/'

-- path.endswith("/")
unfoldable pub ends_with_slash : String → Bool
ends_with_slash String.[] = false
ends_with_slash (String.◌∷◌ c String.[]) = code c =ℕ= b'/'
ends_with_slash (String.◌∷◌ c (String.◌∷◌ d s)) = ends_with_slash (String.◌∷◌ d s)

unfoldable pub path_join : String → String → String
unfolding ends_with_slash
path_join a b =
    if is_absolute b then b else if a == "" || ends_with_slash a then a <> b else a <> "/" <> b

-- os.path.join(first, *rest)
unfoldable pub join_all : String → List String → String
join_all first [] = first
join_all first (p ∷ rest) = join_all (path_join first p) rest

-- Only leading dots: such a name has no extension.
unfoldable pub only_dots : String → Bool
only_dots String.[] = true
only_dots (String.◌∷◌ c s) = code c =ℕ= b'.' && only_dots s

-- os.path.splitext of a name without "/": the last dot begins the extension, unless only dots stand
-- before it.
unfoldable pub splitext : String → String × String
unfolding only_dots rsplit
splitext name = elim (rsplit b'.' name) [
  | none ↦ (name, "")
  | some (root, ext) ↦ if only_dots root then (name, "") else (root, "." <> ext)
]

-- Only slashes: the head of such a path keeps them.
pub only_slashes : String → Bool
only_slashes String.[] = true
only_slashes (String.◌∷◌ c s) = code c =ℕ= b'/' && only_slashes s

-- s.rstrip("/")
pub strip_slashes : String → String
unfolding only_slashes
strip_slashes String.[] = String.[]
strip_slashes (String.◌∷◌ c s) =
    if only_slashes (String.◌∷◌ c s) then "" else String.◌∷◌ c (strip_slashes s)

-- os.path.dirname
unfoldable pub dirname : String → String
unfolding rsplit strip_slashes
dirname p = elim (rsplit b'/' p) [
  | none ↦ ""
  | some (head, tail) ↦ if only_slashes head then head <> "/" else strip_slashes head
]
