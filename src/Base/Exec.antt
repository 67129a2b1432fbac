-- ===== src/Base/Exec.antt =====
-- Scripts: actions on a state that may raise. What was done before a raise stays done.
use test_minio.Base.{Error, Result, ok, err, ◌≡◌, refl, arith, ok-injective, sym, ap, ◌∙◌}

abbrev pub Exec : Type 0 → Type 0 → Type 0
Exec S A = S → Result A × S

module _ {S A : Type 0} where
  abbrev pub pure : A → Exec S A
  pure a s = (ok a, s)

  abbrev pub raise : Error → Exec S A
  raise e s = (err e, s)

  -- a step that leaves the state alone
  abbrev pub lift : Result A → Exec S A
  lift r s = (r, s)

  abbrev pub gets : (S → Result A) → Exec S A
  gets f s = (f s, s)

module _ {S A B : Type 0} where
  abbrev pub continue : Result A → (A → Exec S B) → Exec S B
  continue (ok a) f s = f a s
  continue (err e) f s = (err e, s)

  infixl 5 ◌>>=◌ ◌>>◌
  abbrev pub ◌>>=◌ : Exec S A → (A → Exec S B) → Exec S B
  ◌>>=◌ m f s = continue (m s).0 f (m s).1

  abbrev pub ◌>>◌ : Exec S A → Exec S B → Exec S B
  ◌>>◌ m n s = continue (m s).0 (λ _. n) (m s).1

  continue_ok :
      (r : Result A) (f : A → Exec S B) (s : S) (y : B)
      → (continue r f s).0 ≡ ok y
      → (x : A) × (r ≡ ok x) × (continue r f s ≡ f x s)
  continue_ok (ok x) f s y h = (x, refl, refl)
  continue_ok (err e) f s y h = absurd (ground arith)

  -- A chain that ends well has ended well at its first step, and goes on from there.
  pub ok_of_bind :
      (m : Exec S A) (f : A → Exec S B) (s : S) (y : B)
      → ((m >>= f) s).0 ≡ ok y
      → (x : A) × ((m s).0 ≡ ok x) × ((m >>= f) s ≡ f x (m s).1)
  ok_of_bind m f s y h = continue_ok (m s).0 f (m s).1 y h

  -- A chain that gives `g x` for the result of its first step.
  pub ok_of_map :
      (m : Exec S A) (g : A → B) (s : S) (y : B)
      → ((m >>= λ x. pure (g x)) s).0 ≡ ok y
      → (x : A) × ((m s).0 ≡ ok x) × (y ≡ g x) × (((m >>= λ x'. pure (g x')) s).1 ≡ (m s).1)
  ok_of_map m g s y h =
      let (x, e, f) = ok_of_bind m (λ x. pure (g x)) s y h in
      (x, e, ok-injective y (g x) (sym h ∙ ap (λ r. r.0) f), ap (λ r. r.1) f)
