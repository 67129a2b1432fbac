-- ===== src/Host/Steps.antt =====
-- What a loop that ends well has done: one step for each item, in order.
use test_minio.Base.{List, [], ◌∷◌, ok, ◌≡◌, sym, ap, ◌∙◌, subst, All}
use test_minio.Base.Exec.{Exec, ok_of_bind}
use test_minio.Host.{Actions, for_each}

-- The steps lead from some actions to others, each related to its item.
pub data Steps {A : Type 0} (R : A → Actions → Actions → Type 0)
    : List A → Actions → Actions → Type 0 where
  done : (s : Actions) → Steps R [] s s
  step : (x : A) (xs : List A) (s t u : Actions) → R x s t → Steps R xs t u → Steps R (x ∷ xs) s u

pub for_each-Steps :
    {A : Type 0} (R : A → Actions → Actions → Type 0) (Q : A → Type 0)
    (body : A → Exec Actions (Unit {0}))
    → ((x : A) (s : Actions) → Q x → (body x s).0 ≡ ok tt → R x s (body x s).1)
    → (xs : List A) (s : Actions) → All Q xs
    → (for_each body xs s).0 ≡ ok tt
    → Steps R xs s (for_each body xs s).1
for_each-Steps R Q body h [] s hq e = done s
for_each-Steps R Q body h (x ∷ xs) s (q, hq) e =
    let (_, f, g) = ok_of_bind (body x) (λ _. for_each body xs) s tt e in
    step x xs s (body x s).1 _ (h x s q f) (
      subst (Steps R xs (body x s).1) (ap (λ r. r.1) (sym g))
        (for_each-Steps R Q body h xs (body x s).1 hq (ap (λ r. r.0) (sym g) ∙ e)))
