-- ===== src/ExtractImages/Scan.antt =====
-- A scan is a sequence of `append_or_update`, for images that do not depend on the list.
use test_minio.Base.{
  ◌≡◌, refl, Bool, true, false, List, [], ◌∷◌, ◌++◌, Result, ok, err, ok_of_bind, inl, inr, arith,
  if◌then◌else◌, ◌>>=◌, Result-cases, key_error, elem,
}
use test_minio.Base.Value.{iterate, Value, dict, get_item}
use test_minio.ExtractImages.Reference.{Image}
use test_minio.ExtractImages.Images.{append_or_update}
use test_minio.ExtractImages.{
  try_item, image_of, scan_container, scan_containers, scan_workload, containers_of, scan_resource,
  scan_resources, kind_of, accepted_kinds, File, scan_files, is_resource_file,
}

abbrev pub append_all : List Value → List Image → Result (List Value)
append_all l [] = ok l
append_all l (new ∷ images) = append_or_update l new >>= λ rest. append_all rest images

append_all-append :
    (l : List Value) (xs ys : List Image)
    → append_all l (xs ++ ys) ≡ (append_all l xs >>= λ rest. append_all rest ys)
append_all-append l [] ys = refl
append_all-append l (x ∷ xs) ys = elim (Result-cases (append_or_update l x)) [
  | inl (rest, e) ↦ rw e (append_all-append rest xs ys)
  | inr (raised, e) ↦ rw e refl
]

-- The images that a part of the program adds, whatever the list is.
abbrev pub Adds : (List Value → Result (List Value)) → Type 0
Adds scan = (images : List Image) × ((l : List Value) → scan l ≡ append_all l images)

module _ (first next : List Value → Result (List Value)) where
  Adds_both :
      (l : List Value) (xs ys : List Image)
      → first l ≡ append_all l xs
      → ((m : List Value) → next m ≡ append_all m ys)
      → (first l >>= next) ≡ append_all l (xs ++ ys)
  Adds_both l xs ys e f = elim (Result-cases (append_all l xs)) [
    | inl (m, g) ↦ rw (append_all-append, e, g) (f m)
    | inr (raised, g) ↦ rw (append_all-append, e, g) refl
  ]

  Adds-bind : Adds first → Adds next → Adds (λ l. first l >>= next)
  Adds-bind (xs, e) (ys, f) = (xs ++ ys, λ l. Adds_both l xs ys (e l) f)

  -- A scan that returns, by parts.
  Adds-chain :
      (l l' : List Value)
      → ((x y : List Value) → first x ≡ ok y → Adds first)
      → ((x y : List Value) → next x ≡ ok y → Adds next)
      → (first l >>= next) ≡ ok l'
      → Adds (λ x. first x >>= next)
  Adds-chain l l' p q h =
      let (m, e, f) = ok_of_bind (first l) next l' h in Adds-bind (p l m e) (q m l' f)

-- A value that does not depend on the list comes first.
Adds-value :
    {A : Type 0} (r : Result A) (next : A → List Value → Result (List Value)) (l l' : List Value)
    → (r >>= λ v. next v l) ≡ ok l'
    → ((v : A) → next v l ≡ ok l' → Adds (next v))
    → Adds (λ x. r >>= λ v. next v x)
Adds-value (ok v) next l l' h p = p v h
Adds-value (err raised) next l l' h p = absurd (ground arith)

Adds-try :
    (r : Result Value) (next : Value → List Value → Result (List Value)) (l l' : List Value)
    → try_item r l (λ v. next v l) ≡ ok l'
    → ((v : Value) → next v l ≡ ok l' → Adds (next v))
    → Adds (λ x. try_item r x (λ v. next v x))
Adds-try (ok v) next l l' h p = p v h
Adds-try (err key_error) next l l' h p = ([], λ x. refl)
Adds-try (err _) next l l' h p = absurd (ground arith)

ok_again : (r : Result (List Value)) → r ≡ (r >>= λ rest. ok rest)
ok_again (ok l) = refl
ok_again (err raised) = refl

Adds-one : (new : Image) → Adds (λ l. append_or_update l new)
Adds-one new = (new ∷ [], λ l. ok_again (append_or_update l new))

scan_container-Adds :
    (c : Value) (l l' : List Value) → scan_container l c ≡ ok l' → Adds (λ x. scan_container x c)
unfolding scan_container
scan_container-Adds c l l' h =
    Adds-try (get_item c "image") (λ v x. image_of v >>= λ new. append_or_update x new) l l' h
      (λ v k.
        Adds-value (image_of v) (λ new x. append_or_update x new) l l' k (λ new q. Adds-one new))

scan_containers-Adds :
    (cs : List Value) (l l' : List Value)
    → scan_containers l cs ≡ ok l'
    → Adds (λ x. scan_containers x cs)
unfolding scan_containers
scan_containers-Adds [] l l' h = ([], λ x. refl)
scan_containers-Adds (c ∷ cs) l l' h =
    Adds-chain (λ x. scan_container x c) (λ x. scan_containers x cs) l l' (scan_container-Adds c)
      (scan_containers-Adds cs) h

scan_workload-Adds :
    (r : Value) (l l' : List Value) → scan_workload l r ≡ ok l' → Adds (λ x. scan_workload x r)
unfolding scan_workload
scan_workload-Adds r l l' h =
    Adds-try (containers_of r) (λ v x. iterate v >>= λ cs. scan_containers x cs) l l' h
      (λ v k.
        Adds-value (iterate v) (λ cs x. scan_containers x cs) l l' k
          (λ cs q. scan_containers-Adds cs l l' q))

-- A test that does not depend on the list.
Adds-if :
    (b : Bool) (first next : List Value → Result (List Value)) (l l' : List Value)
    → (if b then first l else next l) ≡ ok l'
    → (first l ≡ ok l' → Adds first)
    → (next l ≡ ok l' → Adds next)
    → Adds (λ x. if b then first x else next x)
Adds-if true first next l l' h p q = p h
Adds-if false first next l l' h p q = q h

scan_resource-Adds :
    (r : Value) (l l' : List Value) → scan_resource l r ≡ ok l' → Adds (λ x. scan_resource x r)
unfolding scan_resource
scan_resource-Adds (dict d) l l' h =
    Adds-value (kind_of d)
      (λ kind x. if elem kind accepted_kinds then scan_workload x (dict d) else ok x) l l' h
      (λ kind k.
        Adds-if (elem kind accepted_kinds) (λ x. scan_workload x (dict d)) ok l l' k
          (scan_workload-Adds (dict d) l l') (λ q. ([], λ x. refl)))
scan_resource-Adds _ l l' h = ([], λ x. refl)

scan_resources-Adds :
    (rs : List Value) (l l' : List Value)
    → scan_resources l rs ≡ ok l'
    → Adds (λ x. scan_resources x rs)
unfolding scan_resources
scan_resources-Adds [] l l' h = ([], λ x. refl)
scan_resources-Adds (r ∷ rs) l l' h =
    Adds-chain (λ x. scan_resource x r) (λ x. scan_resources x rs) l l' (scan_resource-Adds r)
      (scan_resources-Adds rs) h

pub scan_files-Adds :
    (files : List File) (l l' : List Value)
    → scan_files l files ≡ ok l'
    → Adds (λ x. scan_files x files)
unfolding scan_files
scan_files-Adds [] l l' h = ([], λ x. refl)
scan_files-Adds ((filename, documents) ∷ files) l l' h =
    Adds-if (is_resource_file filename)
      (λ x. documents >>= λ rs. scan_resources x rs >>= λ m. scan_files m files)
      (λ x. scan_files x files) l l' h
      (λ k.
        Adds-value documents (λ rs x. scan_resources x rs >>= λ m. scan_files m files) l l' k
          (λ rs q.
            Adds-chain (λ x. scan_resources x rs) (λ x. scan_files x files) l l'
              (scan_resources-Adds rs) (scan_files-Adds files) q))
      (scan_files-Adds files l l')
