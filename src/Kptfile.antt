-- ===== src/Kptfile.antt =====
-- hack/create_kptfile.py: the commands that make a Kpt package of the GCP manifests. A method that only
-- runs commands is the list of them, in order, each with its arguments and its directory. Kptfile/Creator
-- has the methods of `KptCreator`, Kptfile/Comments the one that strips comments.
pub mod Creator
pub mod Comments
pub mod Pattern
pub mod Scope
mod Tests
use test_minio.Base.{String, Option, none, some, List, [], ◌∷◌, ◌++◌, Result}

-- the arguments of `subprocess.check_call`
pub record Command : Type 0 where
  pub argv : List String
  pub cwd : Option String

-- `if field:`, for a field that is not empty where it is given
abbrev pub field_option : Option String → List String
field_option none = []
field_option (some field) = "--field" ∷ field ∷ []

pub create_setter : String → String → String → Option String → Command
create_setter name value cwd field = record {
  argv = ("kpt" ∷ "cfg" ∷ "create-setter" ∷ "." ∷ name ∷ value ∷ []) ++ field_option field;
  cwd = some cwd;
}

pub create_subst : String → String → String → String → Command
create_subst name value pattern_ cwd = record {
  argv =
      "kpt" ∷ "cfg" ∷ "create-subst" ∷ "." ∷ name ∷ "--field-value" ∷ value ∷ "--pattern" ∷ pattern_
      ∷ [];
  cwd = some cwd;
}
