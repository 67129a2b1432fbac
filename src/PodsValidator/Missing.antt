-- ===== src/PodsValidator/Missing.antt =====
-- What is left of the templates, described without the removals.
use test_minio.Base.{
  String, ◌≡◌, refl, sym, ◌∙◌, ap, Bool, true, false, ◌||◌, List, [], ◌∷◌, Result, ok, ok_of_bind,
  ok-injective, inl, inr, if◌then◌else◌, ◌>>=◌, Bool-cases, All, subst,
}
use test_minio.Base.Text.{begins_with}
use test_minio.PodsValidator.{Pod, is_up, remove_template, remove_templates}

-- the names of the pods that are up
unfoldable pub up_names : List Pod → Result (List String)
up_names [] = ok []
up_names (pod ∷ pods) = do
  up ← is_up pod
  names ← up_names pods
  ok (if up then pod.name ∷ names else names)

-- some name begins with the template
unfoldable pub is_hit : List String → String → Bool
is_hit [] template = false
is_hit (name ∷ names) template = begins_with name template || is_hit names template

-- the templates that no name begins with
pub missing : List String → List String → List String
missing names [] = []
missing names (template ∷ rest) =
    if is_hit names template then missing names rest else template ∷ missing names rest

-- The name begins with one of the templates at most.
abbrev pub IsClear : List String → String → Type 0
IsClear [] name = Unit
IsClear (template ∷ rest) name =
    (begins_with name template ≡ true → All (λ other. begins_with name other ≡ false) rest)
    × IsClear rest name

remove_template_none :
    (name : String) (ts : List String)
    → All (λ other. begins_with name other ≡ false) ts
    → remove_template name ts ≡ ts
unfolding remove_template
remove_template_none name [] h = refl
remove_template_none name (t ∷ ts) h = rw h.0 (ap (t ∷◌) (remove_template_none name ts h.1))

missing_none : (ts : List String) → missing [] ts ≡ ts
unfolding missing is_hit
missing_none [] = refl
missing_none (t ∷ ts) = ap (t ∷◌) (missing_none ts)

missing_of_others :
    (name : String) (names ts : List String)
    → All (λ other. begins_with name other ≡ false) ts
    → missing (name ∷ names) ts ≡ missing names ts
unfolding missing is_hit
missing_of_others name names [] h = refl
missing_of_others name names (t ∷ ts) h = rw (h.0, missing_of_others name names ts h.1) refl

-- One removal leaves the same templates missing.
missing-remove_template :
    (name : String) (names ts : List String)
    → IsClear ts name
    → missing names (remove_template name ts) ≡ missing (name ∷ names) ts
unfolding missing is_hit remove_template
missing-remove_template name names [] h = refl
missing-remove_template name names (t ∷ ts) h = elim (Bool-cases (begins_with name t)) [
  | inl y ↦ rw y (sym (missing_of_others name names ts (h.0 y)))
  | inr n ↦ rw n (rw (missing-remove_template name names ts h.1) refl)
]

remove_template_keeps :
    (P : String → Type 0) (name : String) (ts : List String)
    → All P ts
    → All P (remove_template name ts)
unfolding remove_template
remove_template_keeps P name [] h = tt
remove_template_keeps P name (t ∷ ts) h = elim (Bool-cases (begins_with name t)) [
  | inl y ↦ rw y h.1
  | inr n ↦ rw n (h.0, remove_template_keeps P name ts h.1)
]

IsClear-remove_template :
    (name : String) (ts : List String) (other : String)
    → IsClear ts other
    → IsClear (remove_template name ts) other
unfolding remove_template
IsClear-remove_template name [] other h = tt
IsClear-remove_template name (t ∷ ts) other h = elim (Bool-cases (begins_with name t)) [
  | inl y ↦ rw y h.1
  | inr n ↦ rw n (
    λ e. remove_template_keeps (λ u. begins_with other u ≡ false) name ts (h.0 e),
    IsClear-remove_template name ts other h.1,
  )
]

All-map :
    (P Q : String → Type 0) → ((x : String) → P x → Q x) → (xs : List String) → All P xs → All Q xs
All-map P Q f [] h = tt
All-map P Q f (x ∷ xs) h = (f x h.0, All-map P Q f xs h.1)

-- A list of pods whose names are known, by its first pod.
pub up_names_cons :
    (pod : Pod) (pods : List Pod) (names : List String)
    → up_names (pod ∷ pods) ≡ ok names
    → (up : Bool) × (rest : List String) × (is_up pod ≡ ok up)
      × (up_names pods ≡ ok rest)
      × ((if up then pod.name ∷ rest else rest) ≡ names)
unfolding up_names
up_names_cons pod pods names h =
    let (up, e, f) =
      ok_of_bind (is_up pod)
        (λ up. up_names pods >>= λ rest. ok (if up then pod.name ∷ rest else rest)) names h in
    let (rest, g, k) =
      ok_of_bind (up_names pods) (λ rest. ok (if up then pod.name ∷ rest else rest)) names f in
    (up, rest, e, g, ok-injective (if up then pod.name ∷ rest else rest) names k)

pub remove_templates_cons :
    (pod : Pod) (pods : List Pod) (ts : List String) (up : Bool)
    → is_up pod ≡ ok up
    → remove_templates (pod ∷ pods) ts
      ≡ remove_templates pods (if up then remove_template pod.name ts else ts)
remove_templates_cons pod pods ts up e = unfold remove_templates in rw e refl

missing_step :
    (pod : Pod) (pods : List Pod) (ts names rest : List String) (up : Bool)
    → (if up then pod.name ∷ rest else rest) ≡ names
    → All (IsClear ts) names
    → ((us : List String) → All (IsClear us) rest → remove_templates pods us ≡ ok (missing rest us))
    → remove_templates pods (if up then remove_template pod.name ts else ts) ≡ ok (missing names ts)
missing_step pod pods ts names rest true k clear p =
    let c = subst (All (IsClear ts)) (sym k) clear in
    p (remove_template pod.name ts) (
      All-map (IsClear ts) (IsClear (remove_template pod.name ts))
        (IsClear-remove_template pod.name ts) rest c.1)
    ∙ ap ok (missing-remove_template pod.name rest ts c.0 ∙ ap (λ ns. missing ns ts) k)
missing_step pod pods ts names rest false k clear p =
    p ts (subst (All (IsClear ts)) (sym k) clear) ∙ ap (λ ns. ok (missing ns ts)) k

pub remove_templates-missing :
    (pods : List Pod) (ts names : List String)
    → up_names pods ≡ ok names
    → All (IsClear ts) names
    → remove_templates pods ts ≡ ok (missing names ts)
unfolding remove_templates up_names
remove_templates-missing [] ts names h clear =
    ap ok (sym (missing_none ts)) ∙ ap (λ ns. ok (missing ns ts)) (ok-injective [] names h)
remove_templates-missing (pod ∷ pods) ts names h clear =
    let (up, rest, e, g, k) = up_names_cons pod pods names h in
    remove_templates_cons pod pods ts up e
    ∙ missing_step pod pods ts names rest up k clear
        (λ us c. remove_templates-missing pods us rest g c)
