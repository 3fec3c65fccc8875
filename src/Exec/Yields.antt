-- ===== src/Exec/Yields.antt =====
-- What holds where an action returns a value: triples that ask nothing of an error.
use xenonite.Base.{List, [], ◌∷◌, ◌++◌, ◌≡◌, refl, subst, sym, append-nil, String}
use xenonite.Api.Core.{Arg}
use xenonite.Exec.{
  Result, ok, err, Call, Reply, called, History, External, Exec, pure, lift, wrap, wrap_result,
  request, ◌>>=◌,
}
use xenonite.Exec.Triple.{Triple, Triple-bind, Triple-pure}

abbrev pub Yields {ℓ} : {A : Type ℓ} → (A → History → Type 0) → Result A → History → Type 0
Yields S (ok a) h = S a h
Yields S (err e) h = Unit

wrapped {ℓ} :
    {A : Type ℓ} (S : A → History → Type 0) (format : String) (args : List Arg) (r : Result A)
    (h : History)
    → Yields S r h
    → Yields S (wrap_result format args r) h
wrapped S format args (ok a) h y = y
wrapped S format args (err e) h y = tt

module _ {ℓ κ} {A : Type ℓ} {B : Type κ} {P : History → Type 0} where
  pub Yields-bind :
      {S : B → History → Type 0} (m : Exec A) (f : A → Exec B) (R : A → History → Type 0)
      → Triple P m (Yields R)
      → ((a : A) → Triple (R a) (f a) (Yields S))
      → Triple P (m >>= f) (Yields S)
  Yields-bind m f R first next = Triple-bind m f (Yields R) first next (λ e g _. tt)

module _ {ℓ} {A : Type ℓ} {P : History → Type 0} where
  pub Yields-weaken :
      {R S : A → History → Type 0} (m : Exec A)
      → ((a : A) (h : History) → R a h → S a h)
      → Triple P m (Yields R)
      → Triple P m (Yields S)
  Yields-weaken {R} {S} m w t = record { at = λ h p. go (m h).0 _ (t.at h p) }
    where
      go : (r : Result A) (h : History) → Yields R r h → Yields S r h
      go (ok a) h y = w a h y
      go (err e) h y = tt

  pub Yields-pure :
      {S : A → History → Type 0} (a : A)
      → ((h : History) → P h → S a h)
      → Triple P (pure a) (Yields S)
  Yields-pure a w = Triple-pure a w

  -- A result that is known before.
  pub Yields-lift :
      {S : A → History → Type 0} (r : Result A)
      → ((h : History) → P h → Yields S r h)
      → Triple P (lift r) (Yields S)
  unfolding lift
  Yields-lift {S} r w = record { at = λ h p. subst (Yields S r) (sym (append-nil h)) (w h p) }

  pub Yields-wrap :
      {S : A → History → Type 0} (format : String) (args : List Arg) (m : Exec A)
      → Triple P m (Yields S)
      → Triple P (wrap format args m) (Yields S)
  unfolding wrap
  Yields-wrap {S} format args m t = record {
    at = λ h p. wrapped S format args (m h).0 _ (t.at h p);
  }

module _ (ext : External) {P : History → Type 0} where
  -- A call that is answered with a value, after a history that met `P`.
  pub Yields-request :
      (c : Call) {S : Reply c → History → Type 0}
      → ((a : Reply c) (g : History)
          → P g
          → ext.answer g c ≡ ok a
          → S a (g ++ called c (ok a) ∷ []))
      → Triple P (request ext c) (Yields S)
  unfolding request
  Yields-request c {S} w = record { at = λ h p. go h p (ext.answer h c) refl }
    where
      go :
          (h : History)
          → P h
          → (r : Result (Reply c)) → ext.answer h c ≡ r
          → Yields S r (h ++ called c r ∷ [])
      go h p (ok a) e = w a h p e
      go h p (err _) e = tt

anything {ℓ} : {A : Type ℓ} (r : Result A) (h : History) → Yields (λ _ _. Unit {0}) r h
anything (ok a) h = tt
anything (err e) h = tt

pub Yields-any {ℓ} :
    {A : Type ℓ} {P : History → Type 0} (m : Exec A) → Triple P m (Yields (λ _ _. Unit {0}))
Yields-any m = record { at = λ h p. anything (m h).0 _ }

-- What holds of every value that the action returns.
pub Yields-of {ℓ} :
    {A : Type ℓ} {P : History → Type 0} {S : A → History → Type 0} (m : Exec A)
    → ((h : History) (a : A) → P h → (m h).0 ≡ ok a → S a (h ++ (m h).1))
    → Triple P m (Yields S)
Yields-of {A} {P} {S} m w = record { at = λ h p. go h p (m h).0 refl }
  where
    go : (h : History) → P h → (r : Result A) → (m h).0 ≡ r → Yields S r (h ++ (m h).1)
    go h p (ok a) e = w h a p e
    go h p (err _) e = tt

-- First a result that is known to be a value.
pub Yields-known {ℓ κ} :
    {A : Type ℓ} {B : Type κ} {P : History → Type 0} {S : B → History → Type 0} (r : Result A)
    (f : A → Exec B) (a : A)
    → r ≡ ok a
    → Triple P (f a) (Yields S)
    → Triple P (lift r >>= f) (Yields S)
unfolding ◌>>=◌ lift
Yields-known {P} {S} r f a e t = record { at = λ h p. rw (e, append-nil h) (t.at h p) }
