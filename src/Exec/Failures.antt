-- ===== src/Exec/Failures.antt =====
-- Calls that were answered with an error, and actions that returned a value.
use xenonite.Base.{◌≡◌, refl, List, ◌++◌, ◌⊎◌, inl, inr}
use xenonite.Api.Core.{Error}
use xenonite.Exec.{Event, called, History, Result, ok, err, Exec, continue, ◌>>=◌}

-- The call was answered with an error.
abbrev pub Fails : Event → Type 0
Fails (called _ (err _)) = Unit
Fails _ = ⊥

module _ {ℓ κ} {A : Type ℓ} {B : Type κ} where
  ok-continue :
      (r : Result A) (f : A → Exec B) (h : History) (es : List Event) (b : B)
      → (continue r f h es).0 ≡ ok b
      → (a : A) × (r ≡ ok a)
        × ((f a (h ++ es)).0 ≡ ok b)
        × ((continue r f h es).1 ≡ es ++ (f a (h ++ es)).1)
  ok-continue (ok a) f h es b e = (a, refl, e, refl)
  ok-continue (err _) f h es b e = cc

  -- A sequence that returned a value went through both parts.
  pub ok-bind :
      (m : Exec A) (f : A → Exec B) (h : History) (b : B)
      → ((m >>= f) h).0 ≡ ok b
      → (a : A) × ((m h).0 ≡ ok a)
        × ((f a (h ++ (m h).1)).0 ≡ ok b)
        × (((m >>= f) h).1 ≡ (m h).1 ++ (f a (h ++ (m h).1)).1)
  unfolding ◌>>=◌
  ok-bind m f h b e = ok-continue (m h).0 f h (m h).1 b e

-- To split on an answer and keep the equation.
pub Result-cases {ℓ} :
    {A : Type ℓ} (r : Result A) → ((a : A) × (r ≡ ok a)) ⊎ ((e : Error) × (r ≡ err e))
Result-cases (ok a) = inl (a, refl)
Result-cases (err e) = inr (e, refl)
