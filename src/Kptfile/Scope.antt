-- ===== src/Kptfile/Scope.antt =====
-- What the substitutions of a method refer to, and what they stand for.
use test_minio.Base.{
  String, Bool, true, false, ◌&&◌, ◌||◌, ◌≡◌, refl, List, [], ◌∷◌, ◌==◌, elem, All, Dict, lookup,
  IsUnique, is_unique, is_unique-IsUnique, Bool-cases, inl, inr, arith, eq_iff,
}
use test_minio.Base.Text.{replace_char}
use test_minio.Kptfile.{Command, create_setter}
use test_minio.Kptfile
use test_minio.Kptfile.Pattern.{Effect, setter, subst_, other, effect, pieces, references, fill}
use test_minio.Kptfile.Creator.{create_subst_mgmt, create_subst_stacks}
use test_minio.Kptfile.Creator.Subst.{create_subst}

abbrev pub effects : List Command → List Effect
effects [] = []
effects (c ∷ cs) = effect c.argv ∷ effects cs

-- Each setter that a pattern refers to is among the known ones or is created before it.
abbrev pub IsScoped : List String → List Effect → Type 0
IsScoped known [] = Unit
IsScoped known (setter name value ∷ es) = IsScoped (name ∷ known) es
IsScoped known (subst_ name value pattern_ ∷ es) =
    All (λ r. elem r known ≡ true) (references (pieces pattern_)) × IsScoped known es
IsScoped known (other ∷ es) = IsScoped known es

all_known : List String → List String → Bool
all_known known [] = true
all_known known (r ∷ rs) = elem r known && all_known known rs

scoped : List String → List Effect → Bool
scoped known [] = true
scoped known (setter name value ∷ es) = scoped (name ∷ known) es
scoped known (subst_ name value pattern_ ∷ es) =
    all_known known (references (pieces pattern_)) && scoped known es
scoped known (other ∷ es) = scoped known es

all_known_sound :
    (known rs : List String) → all_known known rs ≡ true → All (λ r. elem r known ≡ true) rs
unfolding all_known
all_known_sound known [] h = tt
all_known_sound known (r ∷ rs) h = (ground arith, all_known_sound known rs (ground arith))

scoped-IsScoped :
    (known : List String) (es : List Effect) → scoped known es ≡ true → IsScoped known es
unfolding scoped
scoped-IsScoped known [] h = tt
scoped-IsScoped known (setter name value ∷ es) h = scoped-IsScoped (name ∷ known) es h
scoped-IsScoped known (subst_ name value pattern_ ∷ es) h = (
  all_known_sound known (references (pieces pattern_)) (ground arith),
  scoped-IsScoped known es (ground arith),
)
scoped-IsScoped known (other ∷ es) h = scoped-IsScoped known es h

-- The value is the pattern, filled with the values of the setters and one of the locations.
abbrev pub IsFilling : Dict String → List String → String → String → Type 0
IsFilling values locations value pattern_ =
    (location : String) × (elem location locations ≡ true)
    × (fill (("location", location) ∷ values) (pieces pattern_) ≡ value)

-- The value of each substitution is its pattern, filled with the values that the setters created before
-- it have, the latest first, and one of the locations.
abbrev pub IsFilled : Dict String → List String → List Effect → Type 0
IsFilled values locations [] = Unit
IsFilled values locations (setter name value ∷ es) = IsFilled ((name, value) ∷ values) locations es
IsFilled values locations (subst_ name value pattern_ ∷ es) =
    IsFilling values locations value pattern_ × IsFilled values locations es
IsFilled values locations (other ∷ es) = IsFilled values locations es

fills : Dict String → List String → String → String → Bool
fills values [] value pattern_ = false
fills values (l ∷ ls) value pattern_ =
    fill (("location", l) ∷ values) (pieces pattern_) == value || fills values ls value pattern_

filled : Dict String → List String → List Effect → Bool
filled values locations [] = true
filled values locations (setter name value ∷ es) = filled ((name, value) ∷ values) locations es
filled values locations (subst_ name value pattern_ ∷ es) =
    fills values locations value pattern_ && filled values locations es
filled values locations (other ∷ es) = filled values locations es

abbrev pub locations_ : List String
locations_ = "us-east1-d" ∷ "us-central1" ∷ "us-central1-c" ∷ []

create_subst-scoped : (path : String) → scoped [] (effects (create_subst path)) ≡ true
unfolding scoped create_subst effect Kptfile.create_subst create_setter elem all_known references
    pieces replace_char
create_subst-scoped path = refl

stacks-scoped : (path : String) → scoped [] (effects (create_subst_stacks path)) ≡ true
unfolding scoped create_subst_stacks effect Kptfile.create_subst create_setter elem all_known
    references pieces
stacks-scoped path = refl

mgmt-scoped : (path : String) → scoped [] (effects (create_subst_mgmt path)) ≡ true
unfolding scoped create_subst_mgmt effect Kptfile.create_subst create_setter elem all_known
    references pieces
mgmt-scoped path = refl

-- In each of create_subst, create_subst_stacks and create_subst_mgmt, every setter that the
-- pattern of a substitution refers to is created before it.
pub create_subst-IsScoped :
    (path : String)
    → IsScoped [] (effects (create_subst path))
      × IsScoped [] (effects (create_subst_stacks path))
      × IsScoped [] (effects (create_subst_mgmt path))
create_subst-IsScoped path = (
  scoped-IsScoped [] (effects (create_subst path)) (create_subst-scoped path),
  scoped-IsScoped [] (effects (create_subst_stacks path)) (stacks-scoped path),
  scoped-IsScoped [] (effects (create_subst_mgmt path)) (mgmt-scoped path),
)

fills-IsFilling :
    (values : Dict String) (ls : List String) (value pattern_ : String)
    → fills values ls value pattern_ ≡ true
    → IsFilling values ls value pattern_
unfolding fills elem
fills-IsFilling values [] value pattern_ h = absurd (ground arith)
fills-IsFilling values (l ∷ ls) value pattern_ h =
    elim (Bool-cases (fill (("location", l) ∷ values) (pieces pattern_) == value)) [
      | inl y ↦ (
        l,
        ground (arith, eq_iff l l),
        (eq_iff (fill (("location", l) ∷ values) (pieces pattern_)) value).0 y,
      )
      | inr n ↦
          let (k, there, e) = fills-IsFilling values ls value pattern_ (ground arith) in
          (k, ground arith, e)
    ]

filled-IsFilled :
    (values : Dict String) (ls : List String) (es : List Effect)
    → filled values ls es ≡ true
    → IsFilled values ls es
unfolding filled
filled-IsFilled values ls [] h = tt
filled-IsFilled values ls (setter name value ∷ es) h =
    filled-IsFilled ((name, value) ∷ values) ls es h
filled-IsFilled values ls (subst_ name value pattern_ ∷ es) h = (
  fills-IsFilling values ls value pattern_ (ground arith),
  filled-IsFilled values ls es (ground arith),
)
filled-IsFilled values ls (other ∷ es) h = filled-IsFilled values ls es h

create_subst-filled : (path : String) → filled [] locations_ (effects (create_subst path)) ≡ true
unfolding filled fills fill create_subst effect Kptfile.create_subst create_setter references pieces
    replace_char lookup
create_subst-filled path = refl

stacks-filled : (path : String) → filled [] locations_ (effects (create_subst_stacks path)) ≡ true
unfolding filled fills fill create_subst_stacks effect Kptfile.create_subst create_setter references
    pieces lookup
stacks-filled path = refl

-- In create_subst and create_subst_stacks the value of each substitution is its pattern, filled
-- with the values that the setters created before it have, the latest first, and one of three
-- locations.
pub create_subst-IsFilled :
    (path : String)
    → IsFilled [] locations_ (effects (create_subst path))
      × IsFilled [] locations_ (effects (create_subst_stacks path))
create_subst-IsFilled path = (
  filled-IsFilled [] locations_ (effects (create_subst path)) (create_subst-filled path),
  filled-IsFilled [] locations_ (effects (create_subst_stacks path)) (stacks-filled path),
)

-- the names of the setters and the substitutions
abbrev pub created : List Effect → List String
created [] = []
created (setter name value ∷ es) = name ∷ created es
created (subst_ name value pattern_ ∷ es) = name ∷ created es
created (other ∷ es) = created es

create_subst_unique : (path : String) → is_unique (created (effects (create_subst path))) ≡ true
unfolding is_unique create_subst effect Kptfile.create_subst create_setter replace_char elem
create_subst_unique path = refl

pub create_subst-IsUnique : (path : String) → IsUnique (created (effects (create_subst path)))
create_subst-IsUnique path =
    is_unique-IsUnique (created (effects (create_subst path))) (create_subst_unique path)
