-- ===== src/Host/Keeps.antt =====
-- A property of every action that a script has done: each step keeps it, and so does the script.
use test_minio.Base.{List, [], ◌∷◌, Result, ok, err, All, ◌≡◌, refl, sym, ap, ◌∙◌}
use test_minio.Base.Exec.{Exec, gets, continue, ◌>>=◌, ok_of_bind}
use test_minio.Host.{Host, Action, Actions, act, for_each}

module _ (P : Action → Type 0) where
  abbrev pub Keeps : {A : Type 0} → Exec Actions A → Type 0
  Keeps m = (s : Actions) → All P s → All P (m s).1

  Keeps-continue :
      {A B : Type 0} (r : Result A) (f : A → Exec Actions B) (s : Actions)
      → ((a : A) → Keeps (f a))
      → All P s
      → All P (continue r f s).1
  Keeps-continue (ok a) f s h hs = h a s hs
  Keeps-continue (err e) f s h hs = hs

  pub Keeps-bind :
      {A B : Type 0} (m : Exec Actions A) (f : A → Exec Actions B)
      → Keeps m
      → ((a : A) → Keeps (f a))
      → Keeps (m >>= f)
  Keeps-bind m f hm hf s hs = Keeps-continue (m s).0 f (m s).1 hf (hm s hs)

  -- reading
  pub Keeps-read :
      {A B : Type 0} (r : Actions → Result A) (f : A → Exec Actions B)
      → ((a : A) → Keeps (f a))
      → Keeps (gets r >>= f)
  Keeps-read r f hf s hs = Keeps-continue (r s) f s hf hs

  pub Keeps-act : (host : Host) (a : Action) → P a → Keeps (act host a)
  Keeps-act host a h s hs = (h, hs)

  pub Keeps-for_each :
      {A : Type 0} (Q : A → Type 0) (body : A → Exec Actions (Unit {0})) (xs : List A)
      → All Q xs
      → ((x : A) → Q x → Keeps (body x))
      → Keeps (for_each body xs)
  Keeps-for_each Q body [] hq h = λ s hs. hs
  Keeps-for_each Q body (x ∷ xs) (q, hq) h =
      Keeps-bind (body x) (λ _. for_each body xs) (h x q) (λ _. Keeps-for_each Q body xs hq h)

-- Actions one after the other, on those before them.
abbrev pub pushed : {A : Type 0} → (A → Action) → List A → Actions → Actions
pushed g [] s = s
pushed g (x ∷ xs) s = pushed g xs (g x ∷ s)

-- A loop of single actions that ends well has done each of them, in order.
pub for_each-pushed :
    {A : Type 0} (host : Host) (g : A → Action) (xs : List A) (s : Actions)
    → (for_each (λ x. act host (g x)) xs s).0 ≡ ok tt
    → (for_each (λ x. act host (g x)) xs s).1 ≡ pushed g xs s
for_each-pushed host g [] s h = refl
for_each-pushed host g (x ∷ xs) s h =
    let (u, _, e) = ok_of_bind (act host (g x)) (λ _. for_each (λ y. act host (g y)) xs) s tt h in
    ap (λ r. r.1) e ∙ for_each-pushed host g xs (g x ∷ s) (ap (λ r. r.0) (sym e) ∙ h)
