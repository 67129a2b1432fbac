-- ===== src/PodsValidator/Status.antt =====
-- The status that the script exits with.
use test_minio.Base.{
  String, ◌≡◌, refl, sym, ◌∙◌, Bool, true, false, List, [], ◌∷◌, Result, ok, err, Error, type_error,
  index_error, exit_status, ok_of_bind, inl, inr, ◌⊎◌, arith, if◌then◌else◌, ◌>>=◌, Bool-cases,
  Result-cases, length, All, elem, ◌==◌, eq_iff, ok-injective, err-injective, err_of_bind, Option,
  none, some, subst,
}
use test_minio.Base.Text.{begins_with}
use test_minio.PodsValidator.{
  Pod, first_ready, is_up, remove_template, remove_templates, all_pods, main, pods_templates,
}
use test_minio.PodsValidator.Missing.{
  up_names, is_hit, missing, IsClear, remove_templates-missing, up_names_cons,
  remove_templates_cons,
}

rest_elem :
    (t u : String) (ts : List String) → t == u ≡ false → elem t (u ∷ ts) ≡ true → elem t ts ≡ true
unfolding elem
rest_elem t u ts other h = ground arith

-- A template is left or the name begins with it.
elem-remove_template :
    (name : String) (ts : List String) (t : String)
    → elem t ts ≡ true
    → (elem t (remove_template name ts) ≡ true) ⊎ (begins_with name t ≡ true)
unfolding remove_template elem
elem-remove_template name [] t h = absurd (ground arith)
elem-remove_template name (u ∷ ts) t h = elim (Bool-cases (begins_with name u)) [
  | inl y ↦ elim (Bool-cases (t == u)) [
    | inl same ↦ inr (subst (λ v. begins_with name v ≡ true) (sym ((eq_iff t u).0 same)) y)
    | inr other ↦ rw y (inl (rest_elem t u ts other h))
  ]
  | inr n ↦ elim (Bool-cases (t == u)) [
    | inl same ↦ rw n (inl (rw same refl))
    | inr other ↦ elim (elem-remove_template name ts t (rest_elem t u ts other h)) [
      | inl k ↦ rw n (inl (rw (other, k) refl))
      | inr b ↦ inr b
    ]
  ]
]

-- A loop that returns has read each pod.
up_names_of :
    (pods : List Pod) (ts rest : List String)
    → remove_templates pods ts ≡ ok rest
    → (names : List String) × (up_names pods ≡ ok names)
unfolding remove_templates up_names
up_names_of [] ts rest e = ([], refl)
up_names_of (pod ∷ pods) ts rest e =
    let (up, f, g) =
      ok_of_bind (is_up pod)
        (λ up. remove_templates pods (if up then remove_template pod.name ts else ts)) rest e in
    let (names, h) = up_names_of pods (if up then remove_template pod.name ts else ts) rest g in
    ((if up then pod.name ∷ names else names), rw (f, h) refl)

module _ (t : String) (rest : List String) where
  elem_step :
      (pod : Pod) (pods : List Pod) (ts names ns : List String) (up : Bool)
      → (if up then pod.name ∷ ns else ns) ≡ names
      → elem t ts ≡ true
      → ((us : List String)
          → elem t us ≡ true
          → remove_templates pods us ≡ ok rest
          → (elem t rest ≡ true) ⊎ (is_hit ns t ≡ true))
      → remove_templates pods (if up then remove_template pod.name ts else ts) ≡ ok rest
      → (elem t rest ≡ true) ⊎ (is_hit names t ≡ true)
  unfolding is_hit
  elem_step pod pods ts names ns true k h p e = elim (elem-remove_template pod.name ts t h) [
    | inr b ↦ inr (subst (λ x. is_hit x t ≡ true) k (rw b refl))
    | inl left ↦ elim (p (remove_template pod.name ts) left e) [
      | inl there ↦ inl there
      | inr b ↦ inr (subst (λ x. is_hit x t ≡ true) k (ground arith))
    ]
  ]
  elem_step pod pods ts names ns false k h p e =
      subst (λ x. (elem t rest ≡ true) ⊎ (is_hit x t ≡ true)) k (p ts h e)

  -- A template is left or some pod that is up has hit it.
  remove_templates-elem :
      (pods : List Pod) (ts names : List String)
      → elem t ts ≡ true
      → up_names pods ≡ ok names
      → remove_templates pods ts ≡ ok rest
      → (elem t rest ≡ true) ⊎ (is_hit names t ≡ true)
  unfolding remove_templates
  remove_templates-elem [] ts names h f e =
      inl (subst (λ us. elem t us ≡ true) (ok-injective ts rest e) h)
  remove_templates-elem (pod ∷ pods) ts names h f e =
      let (up, ns, g, u, k) = up_names_cons pod pods names f in
      elem_step pod pods ts names ns up k h
        (λ us there q. remove_templates-elem pods us ns there u q)
        (sym (remove_templates_cons pod pods ts up g) ∙ e)

abbrev OfPod : Error → Type 0
OfPod e = (e ≡ type_error) ⊎ (e ≡ index_error)

first_ready-OfPod :
    (statuses : Option (List Bool)) (e : Error) → first_ready statuses ≡ err e → OfPod e
unfolding first_ready
first_ready-OfPod none e h = inl (sym (err-injective {A = Bool} type_error e h))
first_ready-OfPod (some []) e h = inr (sym (err-injective {A = Bool} index_error e h))
first_ready-OfPod (some (ready ∷ rest)) e h = absurd (ground arith)

if_up :
    (succeeded running : Bool) (r : Result Bool) (e : Error)
    → (if succeeded then ok true else if running then r else ok false) ≡ err e
    → r ≡ err e
if_up true running r e h = absurd (ground arith)
if_up false true r e h = h
if_up false false r e h = absurd (ground arith)

is_up-OfPod : (pod : Pod) (e : Error) → is_up pod ≡ err e → OfPod e
unfolding is_up
is_up-OfPod pod e h = first_ready-OfPod pod.container_statuses e (
    if_up (pod.phase == "Succeeded") (pod.phase == "Running") (first_ready pod.container_statuses) e
      h)

remove_templates-OfPod :
    (pods : List Pod) (ts : List String) (e : Error) → remove_templates pods ts ≡ err e → OfPod e
unfolding remove_templates
remove_templates-OfPod [] ts e h = absurd (ground arith)
remove_templates-OfPod (pod ∷ pods) ts e h = elim (Result-cases (is_up pod)) [
  | inl (up, f) ↦
      remove_templates-OfPod pods (if up then remove_template pod.name ts else ts) e
        (sym (remove_templates_cons pod pods ts up f) ∙ h)
  | inr (raised, f) ↦ is_up-OfPod pod e (
      err_of_bind (is_up pod)
        (λ up. remove_templates pods (if up then remove_template pod.name ts else ts)) raised e f h)
]

-- A status of 0 is that of no templates.
exit_zero :
    (r : Result (List String))
    → ((x : Error) → r ≡ err x → OfPod x)
    → ◌>>=◌ {B = Unit {0}} r (λ rest. err (exit_status (length rest))) ≡ err (exit_status 0)
    → r ≡ ok []
exit_zero (ok []) p h = refl
exit_zero (ok (x ∷ xs)) p h =
    let q = err-injective {A = Unit {0}} (exit_status (length (x ∷ xs))) (exit_status 0) h in
    absurd (ground arith)
exit_zero (err x) p h =
    let q = err-injective {A = Unit {0}} x (exit_status 0) h in
    elim (p x refl) [
      | inl u ↦ let w = sym u ∙ q in absurd (ground arith)
      | inr u ↦ let w = sym u ∙ q in absurd (ground arith)
    ]

module _ (list_namespaced_pod : String → Result (List Pod)) (pods : List Pod) where
  -- Where the pods can be listed and read, and the name of each pod that is up begins with one
  -- template at most, the validator exits with the number of templates that no such name begins
  -- with.
  pub main-missing :
      (names : List String)
      → all_pods list_namespaced_pod ≡ ok pods
      → up_names pods ≡ ok names
      → All (IsClear pods_templates) names
      → main list_namespaced_pod ≡ err (exit_status (length (missing names pods_templates)))
  unfolding main
  main-missing names e f clear =
      rw (e, remove_templates-missing pods pods_templates names f clear) refl

  main_exit :
      all_pods list_namespaced_pod ≡ ok pods
      → main list_namespaced_pod ≡ err (exit_status 0)
      → ◌>>=◌ {B = Unit {0}}
          (remove_templates pods pods_templates)
          (λ rest. err (exit_status (length rest)))
        ≡ err (exit_status 0)
  unfolding main
  main_exit e f =
      subst
        (λ r.
          ◌>>=◌ {B = Unit {0}} r
            (λ ps. remove_templates ps pods_templates >>= λ rest. err (exit_status (length rest)))
          ≡ err (exit_status 0))
        e f

  -- A run of the validator that lists its pods and exits with 0 has read each pod, and for each
  -- template there is a pod that is up and whose name begins with it.
  pub main_complete :
      (t : String)
      → all_pods list_namespaced_pod ≡ ok pods
      → main list_namespaced_pod ≡ err (exit_status 0)
      → elem t pods_templates ≡ true
      → (names : List String) × (up_names pods ≡ ok names) × (is_hit names t ≡ true)
  unfolding main
  main_complete t e f h =
      let left =
        exit_zero (remove_templates pods pods_templates)
          (remove_templates-OfPod pods pods_templates) (main_exit e f) in
      let (names, k) = up_names_of pods pods_templates [] left in
      (
        names,
        k,
        elim (remove_templates-elem t [] pods pods_templates names h k left) [
          | inl there ↦ absurd (unfold elem in ground arith)
          | inr hit ↦ hit
        ],
      )
