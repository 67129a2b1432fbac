-- ===== src/ExtractImages/Dirs.antt =====
-- `check_kustomize_dir` and `get_kustomization_dirs`, over a tree of folders in the order in which
-- `os.walk` lists them.
use test_minio.Base.{
  String, ◌&&◌, Option, none, some, List, [], ◌∷◌, ◌++◌, map, elem, ◌==◌, if◌then◌else◌, ◌=ℕ=◌,
  length,
}
use test_minio.Base.FilePath.{path_join}

mutual
  pub data Dir : Type 0 where
    dir : Folders → Dir

  pub data Folders : Type 0 where
    end : Folders
    folder : String → Dir → Folders → Folders

unfoldable pub folder_names : Folders → List String
folder_names end = []
folder_names (folder name d rest) = name ∷ folder_names rest

abbrev pub subfolders : Dir → Folders
subfolders (dir fs) = fs

-- next(walk(path.join(curr, name))); a folder that is not there gives nothing
unfoldable pub open_folder : String → Folders → Folders
open_folder name end = end
open_folder name (folder n d rest) = if n == name then subfolders d else open_folder name rest

abbrev pub exclude_dirs : List String
exclude_dirs = ".github" ∷ "docs" ∷ "hack" ∷ "kfdef" ∷ "plugins" ∷ "tests" ∷ []

-- The directories to scan, or `none` where the directory is no kustomize package.
unfoldable pub check_kustomize_dir : String → Folders → Option (List String)
unfolding folder_names open_folder elem path_join
check_kustomize_dir curr folders =
    if (length (folder_names folders) =ℕ= 1) && elem "base" (folder_names folders)
    then some (path_join curr "base" ∷ [])
    else if (length (folder_names folders) =ℕ= 2)
        && elem "base" (folder_names folders)
        && elem "overlays" (folder_names folders)
    then some (
        path_join curr "base"
        ∷ map (λ f. path_join (path_join curr "overlays") f)
            (folder_names (open_folder "overlays" folders)))
    else none

-- A kustomize package ends the search in its directory.
abbrev pub found_or_below : Option (List String) → List String → List String
found_or_below (some kust_dirs) inner = kust_dirs
found_or_below none inner = inner

-- `helper`, whose list `dirs` is returned
unfoldable mutual
  pub kustomization_dirs : String → Dir → List String
  kustomization_dirs curr (dir folders) =
      found_or_below (check_kustomize_dir curr folders) (below curr folders)

  pub below : String → Folders → List String
  below curr end = []
  below curr (folder f d rest) =
      let inner = kustomization_dirs (path_join curr f) d in
      (if elem f exclude_dirs then [] else inner) ++ below curr rest

-- the search from a root directory
unfoldable pub get_kustomization_dirs : String → Dir → List String
unfolding kustomization_dirs check_kustomize_dir
get_kustomization_dirs root d = kustomization_dirs root d
