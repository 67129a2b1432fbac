-- ===== src/Kptfile/Pattern.antt =====
-- What the arguments say: the setter or the substitution that a command creates, and the setters that a
-- pattern refers to, which kpt writes as ${name}.
use test_minio.Base.{
  String, true, false, none, some, List, [], ◌∷◌, ◌<>◌, ◌==◌, ◌=ℕ=◌, if◌then◌else◌,
}
use test_minio.Base.{Dict, lookup}
use Prim.Native.Char.{code}
use test_minio.Base.Text.{char_text}

pub data Piece : Type 0 where
  text ref : String → Piece

-- in a text, behind "$", and in a reference
pub data Mode : Type 0 where
  in_text after_dollar in_ref : Mode

read : Mode → String → String → List Piece
read in_text acc String.[] = text acc ∷ []
read in_text acc (String.◌∷◌ c s) = elim (code c =ℕ= b'$') [
  | true ↦ read after_dollar acc s
  | false ↦ read in_text (acc <> char_text c) s
]
read after_dollar acc String.[] = text (acc <> "$") ∷ []
read after_dollar acc (String.◌∷◌ c s) = elim (code c =ℕ= b'{') [
  | true ↦ text acc ∷ read in_ref "" s
  | false ↦ read in_text (acc <> ("$" <> char_text c)) s
]
read in_ref acc String.[] = text ("${" <> acc) ∷ []
read in_ref acc (String.◌∷◌ c s) = elim (code c =ℕ= b'}') [
  | true ↦ ref acc ∷ read in_text "" s
  | false ↦ read in_ref (acc <> char_text c) s
]

unfoldable pub pieces : String → List Piece
unfolding read
pieces = read in_text ""

unfoldable pub references : List Piece → List String
references [] = []
references (text t ∷ ps) = references ps
references (ref r ∷ ps) = r ∷ references ps

-- the pattern with the values of the setters; a reference without a value stays empty
unfoldable pub fill : Dict String → List Piece → String
fill values [] = ""
fill values (text t ∷ ps) = t <> fill values ps
fill values (ref r ∷ ps) = elim (lookup r values) [
  | none ↦ fill values ps
  | some v ↦ v <> fill values ps
]

-- What a command does to a Kptfile: the name and the value of a setter, or the name, the value and the
-- pattern of a substitution.
pub data Effect : Type 0 where
  setter : String → String → Effect
  subst_ : String → String → String → Effect
  other : Effect

unfoldable pub effect : List String → Effect
effect (kpt ∷ cfg ∷ verb ∷ dot ∷ name ∷ value ∷ []) =
    if verb == "create-setter" then setter name value else other
effect (kpt ∷ cfg ∷ verb ∷ dot ∷ name ∷ a ∷ b ∷ c ∷ []) =
    if verb == "create-setter" then setter name a else other
effect (kpt ∷ cfg ∷ verb ∷ dot ∷ name ∷ f ∷ value ∷ p ∷ pattern_ ∷ []) =
    if verb == "create-subst" then subst_ name value pattern_ else other
effect _ = other
