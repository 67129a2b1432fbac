-- ===== src/ExtractImages/Reached.antt =====
-- The directories that the search finds, as a relation.
use test_minio.Base.{
  String, ◌≡◌, refl, sym, ◌∙◌, ap, Bool, true, false, ◌||◌, none, some, List, [], ◌∷◌, ◌++◌, inl,
  inr, ◌↔◌, arith, elem, Bool-cases, ◌⊎◌, map, subst, eq_iff, ◌==◌, ◌&&◌,
}
use test_minio.Base.FilePath.{path_join}
use test_minio.ExtractImages.Dirs.{
  Dir, dir, Folders, end, folder, check_kustomize_dir, exclude_dirs, kustomization_dirs,
  found_or_below, below, get_kustomization_dirs, folder_names, open_folder,
}

-- The folders have this one under the name.
pub data HasFolder (name : String) (d : Dir) : Folders → Type 0 where
  here : (rest : Folders) → HasFolder name d (folder name d rest)
  there :
      (n : String) (e : Dir) (rest : Folders)
      → HasFolder name d rest
      → HasFolder name d (folder n e rest)

-- The folders of a kustomize package, and those of its overlays: there is a folder `base` and nothing
-- else, or `base` and `overlays` and nothing else.
pub data IsPackage : Folders → Folders → Type 0 where
  base_only : (d : Dir) → IsPackage (folder "base" d end) end
  base_first :
      (d : Dir) (overlays : Folders)
      → IsPackage (folder "base" d (folder "overlays" (dir overlays) end)) overlays
  overlays_first :
      (d : Dir) (overlays : Folders)
      → IsPackage (folder "overlays" (dir overlays) (folder "base" d end)) overlays

-- The folders are not those of a package.
abbrev pub IsPlain : Folders → Type 0
IsPlain fs = (overlays : Folders) → ¬ IsPackage fs overlays

-- One enters each folder that is not excluded, up to the first kustomize packages, and finds the base
-- and the overlays of each of these.
pub data Reached (x : String) : String → Dir → Type 0 where
  at_base :
      (curr : String) (fs overlays : Folders)
      → IsPackage fs overlays
      → x ≡ path_join curr "base"
      → Reached x curr (dir fs)
  at_overlay :
      (curr : String) (fs overlays : Folders) (f : String) (d : Dir)
      → IsPackage fs overlays
      → HasFolder f d overlays
      → x ≡ path_join (path_join curr "overlays") f
      → Reached x curr (dir fs)
  enter :
      (curr : String) (fs : Folders) (f : String) (d : Dir)
      → IsPlain fs
      → HasFolder f d fs
      → elem f exclude_dirs ≡ false
      → Reached x (path_join curr f) d
      → Reached x curr (dir fs)

-- What a package gives: its base, and its overlays.
package_dirs : String → Folders → List String
package_dirs curr overlays =
    path_join curr "base"
    ∷ map (λ f. path_join (path_join curr "overlays") f) (folder_names overlays)

check-IsPackage :
    (curr : String) (fs overlays : Folders)
    → IsPackage fs overlays
    → check_kustomize_dir curr fs ≡ some (package_dirs curr overlays)
unfolding check_kustomize_dir package_dirs folder_names open_folder elem
check-IsPackage curr _ _ (base_only d) = refl
check-IsPackage curr _ _ (base_first d overlays) = refl
check-IsPackage curr _ _ (overlays_first d overlays) = refl

-- What the check finds about a directory.
abbrev Checked : String → Folders → Type 0
Checked curr fs =
    ((overlays : Folders) × IsPackage fs overlays) ⊎ (check_kustomize_dir curr fs ≡ none)

eq_comm : (a b : String) → (a == b) ≡ (b == a)
eq_comm a b = ground (arith, eq_iff a b, eq_iff b a)

not_both : (a : String) → (a == "base" && a == "overlays") ≡ false
not_both a = elim (Bool-cases (a == "base")) [
  | inl e ↦ ap (λ b. b == "base" && b == "overlays") ((eq_iff a "base").0 e)
  | inr e ↦ ground arith
]

base_and_overlays :
    (n m : String) (d : Dir) (o : Folders)
    → n ≡ "base"
    → m ≡ "overlays"
    → IsPackage (folder n d (folder m (dir o) end)) o
base_and_overlays n m d o e h =
    subst (λ n'. IsPackage (folder n' d (folder m (dir o) end)) o) (sym e)
      (subst (λ m'. IsPackage (folder "base" d (folder m' (dir o) end)) o) (sym h) (base_first d o))

overlays_and_base :
    (n m : String) (d : Dir) (o : Folders)
    → n ≡ "overlays"
    → m ≡ "base"
    → IsPackage (folder n (dir o) (folder m d end)) o
overlays_and_base n m d o e h =
    subst (λ n'. IsPackage (folder n' (dir o) (folder m d end)) o) (sym e)
      (subst (λ m'. IsPackage (folder "overlays" (dir o) (folder m' d end)) o) (sym h)
        (overlays_first d o))

check-cases : (curr : String) (fs : Folders) → Checked curr fs
unfolding check_kustomize_dir folder_names elem
check-cases curr end = inr refl
check-cases curr (folder n d end) = elim (Bool-cases (n == "base")) [
  | inl e ↦
      inl (
        end,
        subst (λ m. IsPackage (folder m d end) end) (sym ((eq_iff n "base").0 e)) (base_only d),
      )
  | inr e ↦ inr (ground (arith, eq_iff n "base", eq_iff "base" n))
]
check-cases curr (folder n (dir p) (folder m (dir o) end)) =
    elim (Bool-cases (n == "base" && m == "overlays")) [
      | inl e ↦ inl (
        o,
        base_and_overlays n m (dir p) o (ground (arith, eq_iff n "base"))
            (ground (arith, eq_iff m "overlays")),
      )
      | inr k ↦ elim (Bool-cases (n == "overlays" && m == "base")) [
        | inl e ↦ inl (
          p,
          overlays_and_base n m (dir o) p (ground (arith, eq_iff n "overlays"))
              (ground (arith, eq_iff m "base")),
        )
        | inr l ↦ inr (
            ground (
              arith,
              eq_comm "base" n,
              eq_comm "base" m,
              eq_comm "overlays" n,
              eq_comm "overlays" m,
              not_both n,
              not_both m,
            ))
      ]
    ]
check-cases curr (folder n d (folder m e (folder k g fs))) = inr (ground (arith))

check-IsPlain : (curr : String) (fs : Folders) → IsPlain fs → check_kustomize_dir curr fs ≡ none
check-IsPlain curr fs plain = elim (check-cases curr fs) [
  | inl (overlays, p) ↦ absurd (plain overlays p)
  | inr e ↦ e
]

IsPlain-check : (curr : String) (fs : Folders) → check_kustomize_dir curr fs ≡ none → IsPlain fs
IsPlain-check curr fs e overlays p = cc (e, check-IsPackage curr fs overlays p)

-- The names of the folders, each put into a path.
overlay_found :
    (x : String) (g : String → String) (fs : Folders)
    → elem x (map g (folder_names fs)) ≡ true
    → (f : String) × (d : Dir) × HasFolder f d fs × (x ≡ g f)
unfolding folder_names elem
overlay_found x g end h = absurd (ground arith)
overlay_found x g (folder n d rest) h = elim (Bool-cases (x == g n)) [
  | inl e ↦ (n, d, here rest, (eq_iff x (g n)).0 e)
  | inr e ↦
      let (f, d', k, q) = overlay_found x g rest (ground arith) in (f, d', there n d rest k, q)
]

overlay_listed :
    (f : String) (d : Dir) (g : String → String) (fs : Folders)
    → HasFolder f d fs
    → elem (g f) (map g (folder_names fs)) ≡ true
unfolding folder_names elem
overlay_listed f d g _ (here rest) = ground (arith, eq_iff (g f) (g f))
overlay_listed f d g _ (there n e rest h) = ground (arith, overlay_listed f d g rest h)

package_reached :
    (x curr : String) (fs overlays : Folders)
    → IsPackage fs overlays
    → elem x (package_dirs curr overlays) ≡ true
    → Reached x curr (dir fs)
unfolding package_dirs elem
package_reached x curr fs overlays p h = elim (Bool-cases (x == path_join curr "base")) [
  | inl e ↦ at_base curr fs overlays p ((eq_iff x (path_join curr "base")).0 e)
  | inr e ↦
      let (f, d, k, q) =
        overlay_found x (path_join (path_join curr "overlays")) overlays (ground arith) in
      at_overlay curr fs overlays f d p k q
]

elem-append : (x : String) (xs ys : List String) → elem x (xs ++ ys) ≡ elem x xs || elem x ys
unfolding elem
elem-append x [] ys = refl
elem-append x (y ∷ xs) ys = ground (arith, elem-append x xs ys)

or_true : (b : Bool) → b || true ≡ true
or_true true = refl
or_true false = refl

-- What is found in one of the folders.
abbrev Below : String → String → Folders → Type 0
Below x curr fs =
    (f : String) × (d : Dir) × HasFolder f d fs
    × (elem f exclude_dirs ≡ false)
    × Reached x (path_join curr f) d

Below-there :
    (x curr n : String) (e : Dir) (rest : Folders)
    → Below x curr rest
    → Below x curr (folder n e rest)
Below-there x curr n e rest (f, d, h, k, r) = (f, d, there n e rest h, k, r)

module _ (curr : String) (fs : Folders) where
  dirs_def :
      kustomization_dirs curr (dir fs)
      ≡ found_or_below (check_kustomize_dir curr fs) (below curr fs)
  unfolding kustomization_dirs
  dirs_def = refl

  dirs_package :
      (found : List String)
      → check_kustomize_dir curr fs ≡ some found
      → kustomization_dirs curr (dir fs) ≡ found
  dirs_package found e = dirs_def ∙ ap (λ o. found_or_below o (below curr fs)) e

  dirs_below : check_kustomize_dir curr fs ≡ none → kustomization_dirs curr (dir fs) ≡ below curr fs
  dirs_below e = dirs_def ∙ ap (λ o. found_or_below o (below curr fs)) e

elem-nothing : (x : String) → elem x [] ≡ false
unfolding elem
elem-nothing x = refl

below_end : (curr : String) → below curr end ≡ []
unfolding kustomization_dirs
below_end curr = refl

module _ (x curr f : String) (d : Dir) (rest : Folders) where
  below_excluded :
      elem f exclude_dirs ≡ true → elem x (below curr (folder f d rest)) ≡ elem x (below curr rest)
  unfolding kustomization_dirs
  below_excluded y = rw y refl

  below_entered :
      elem f exclude_dirs ≡ false
      → elem x (below curr (folder f d rest))
        ≡ elem x (kustomization_dirs (path_join curr f) d) || elem x (below curr rest)
  unfolding kustomization_dirs
  below_entered n = rw (n, elem-append) refl

mutual
  reach : (x curr : String) (d : Dir) → elem x (kustomization_dirs curr d) ≡ true → Reached x curr d
  reach x curr (dir fs) h = elim (check-cases curr fs) [
    | inl (overlays, p) ↦ package_reached x curr fs overlays p (
        ap (elem x) (
          sym (
            dirs_package curr fs (package_dirs curr overlays) (check-IsPackage curr fs overlays p)))
        ∙ h)
    | inr e ↦
        let (f, d, k, g, r) =
          reach_below x curr fs (ap (elem x) (sym (dirs_below curr fs e)) ∙ h) in
        enter curr fs f d (IsPlain-check curr fs e) k g r
  ]

  reach_below : (x curr : String) (fs : Folders) → elem x (below curr fs) ≡ true → Below x curr fs
  reach_below x curr end h =
      absurd (ground (arith, elem-nothing x, sym (ap (elem x) (below_end curr)) ∙ h))
  reach_below x curr (folder f d rest) h = elim (Bool-cases (elem f exclude_dirs)) [
    | inl y ↦
        Below-there x curr f d rest
          (reach_below x curr rest (sym (below_excluded x curr f d rest y) ∙ h))
    | inr n ↦ elim (Bool-cases (elem x (kustomization_dirs (path_join curr f) d))) [
      | inl k ↦ (f, d, here rest, n, reach x (path_join curr f) d k)
      | inr k ↦
          Below-there x curr f d rest
            (reach_below x curr rest (sym (below_entered x curr f d rest n ∙ rw k refl) ∙ h))
    ]
  ]

find_below :
    (x curr f : String) (d : Dir) (fs : Folders)
    → HasFolder f d fs
    → elem f exclude_dirs ≡ false
    → elem x (kustomization_dirs (path_join curr f) d) ≡ true
    → elem x (below curr fs) ≡ true
find_below x curr f d _ (here rest) g p = below_entered x curr f d rest g ∙ rw p refl
find_below x curr f d _ (there n e rest h) g p =
    let q = find_below x curr f d rest h g p in
    elim (Bool-cases (elem n exclude_dirs)) [
      | inl y ↦ below_excluded x curr n e rest y ∙ q
      | inr k ↦
          below_entered x curr n e rest k
          ∙ rw q (or_true (elem x (kustomization_dirs (path_join curr n) e)))
    ]

base_listed :
    (x curr : String) (overlays : Folders)
    → x ≡ path_join curr "base"
    → elem x (package_dirs curr overlays) ≡ true
unfolding package_dirs elem
base_listed x curr overlays e = ground (arith, eq_iff x (path_join curr "base"))

later_listed :
    (curr f : String) (d : Dir) (overlays : Folders)
    → HasFolder f d overlays
    → elem (path_join (path_join curr "overlays") f) (package_dirs curr overlays) ≡ true
unfolding package_dirs elem
later_listed curr f d overlays h =
    ground (arith, overlay_listed f d (path_join (path_join curr "overlays")) overlays h)

find-Reached :
    (x curr : String) (d : Dir) → Reached x curr d → elem x (kustomization_dirs curr d) ≡ true
find-Reached x curr _ (at_base c fs overlays p e) =
    ap (elem x)
      (dirs_package curr fs (package_dirs curr overlays) (check-IsPackage curr fs overlays p))
    ∙ base_listed x curr overlays e
find-Reached x curr _ (at_overlay c fs overlays f d p h e) =
    ap (elem x)
      (dirs_package curr fs (package_dirs curr overlays) (check-IsPackage curr fs overlays p))
    ∙ ap (λ y. elem y (package_dirs curr overlays)) e
    ∙ later_listed curr f d overlays h
find-Reached x curr _ (enter c fs f d plain k g r) =
    ap (elem x) (dirs_below curr fs (check-IsPlain curr fs plain))
    ∙ find_below x curr f d fs k g (find-Reached x (path_join curr f) d r)

-- A directory is among those that the search for packages finds just where it is a base or an
-- overlay of a kustomize package that is reached from the root through folders that are not
-- excluded and lie in no other package.
pub get_kustomization_dirs-Reached :
    (root x : String) (d : Dir) → (elem x (get_kustomization_dirs root d) ≡ true) ↔ Reached x root d
unfolding get_kustomization_dirs
get_kustomization_dirs-Reached root x d = (reach x root d, find-Reached x root d)
