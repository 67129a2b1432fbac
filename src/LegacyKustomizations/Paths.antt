-- ===== src/LegacyKustomizations/Paths.antt =====
-- What a path in a kustomization names: the place that one gets to from the kustomization's directory.
-- The reference resolves a path part by part, which the source leaves to kustomize.
pub mod Joins
pub mod Resolve
use test_minio.Base.{String, List, [], ◌∷◌, ◌==◌, ◌||◌, if◌then◌else◌}
use test_minio.Base.Text.{split}

-- the directory above; there is none above the root
pub parent : List String → List String
parent [] = []
parent (s ∷ stack) = stack

-- One part of a path, from a directory given by its names, the innermost first.
pub enter : List String → String → List String
unfolding parent
enter stack s = if s == "" || s == "." then stack else if s == ".." then parent stack else s ∷ stack

pub resolve : List String → List String → List String
unfolding enter
resolve stack [] = stack
resolve stack (s ∷ path) = resolve (enter stack s) path

-- The place of a path that is relative to a directory.
abbrev pub place : String → String → List String
place directory path = resolve (resolve [] (split directory "/")) (split path "/")
