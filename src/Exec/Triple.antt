-- ===== src/Exec/Triple.antt =====
-- What an action does to the history: from a history that meets `P` it returns a result and leaves
-- a history that meet `Q`, whatever the answers.
use xenonite.Base.{List, ◌++◌, ◌≡◌, refl, sym, subst, append_assoc, append-nil, All}
use xenonite.Api.Core.{Error}
use xenonite.Exec.{
  Result, ok, err, Event, History, Exec, Call, continue, pure, raise, attempt, ◌>>=◌,
}
use xenonite.Exec.Emits.{Allowed, Emits}

pub record Triple {ℓ} {A : Type ℓ} (P : History → Type 0) (m : Exec A)
    (Q : Result A → History → Type 0) : Type ℓ where
  pub at : (h : History) → P h → Q (m h).0 (h ++ (m h).1)

-- An attempt never fails: its value is the result.
abbrev pub Attempted {ℓ} :
    {A : Type ℓ} → (Result A → History → Type 0) → Result (Result A) → History → Type 0
Attempted Q (ok r) h = Q r h
Attempted Q (err _) h = ⊥

module _ {ℓ κ} {A : Type ℓ} {B : Type κ} {Q : Result B → History → Type 0} where
  continued :
      (r : Result A) (f : A → Exec B) (h : History) (es : List Event)
      (R : Result A → History → Type 0)
      → R r (h ++ es)
      → ((a : A) → Triple (R (ok a)) (f a) Q)
      → ((e : Error) (g : History) → R (err e) g → Q (err e) g)
      → Q (continue r f h es).0 (h ++ (continue r f h es).1)
  continued (ok a) f h es R met next failed =
      subst (Q (f a (h ++ es)).0) (append_assoc h es (f a (h ++ es)).1) ((next a).at (h ++ es) met)
  continued (err e) f h es R met next failed = failed e (h ++ es) met

  -- First `m`, then what `f` makes of its value; an error of `m` is the error of both.
  pub Triple-bind :
      {P : History → Type 0} (m : Exec A) (f : A → Exec B) (R : Result A → History → Type 0)
      → Triple P m R
      → ((a : A) → Triple (R (ok a)) (f a) Q)
      → ((e : Error) (g : History) → R (err e) g → Q (err e) g)
      → Triple P (m >>= f) Q
  unfolding ◌>>=◌
  Triple-bind m f R first next failed = record {
    at = λ h p. continued (m h).0 f h (m h).1 R (first.at h p) next failed;
  }

module _ {ℓ} {A : Type ℓ} {P : History → Type 0} where
  pub Triple-weaken :
      {Q R : Result A → History → Type 0} (m : Exec A)
      → Triple P m Q
      → ((r : Result A) (h : History) → Q r h → R r h)
      → Triple P m R
  Triple-weaken m t w = record { at = λ h p. w (m h).0 _ (t.at h p) }

  pub Triple-before :
      {P' : History → Type 0} {Q : Result A → History → Type 0} (m : Exec A)
      → Triple P m Q
      → ((h : History) → P' h → P h)
      → Triple P' m Q
  Triple-before m t w = record { at = λ h p. t.at h (w h p) }

  pub Triple-pure :
      {Q : Result A → History → Type 0} (a : A)
      → ((h : History) → P h → Q (ok a) h)
      → Triple P (pure a) Q
  unfolding pure
  Triple-pure {Q} a w = record { at = λ h p. subst (Q (ok a)) (sym (append-nil h)) (w h p) }

  pub Triple-raise :
      {Q : Result A → History → Type 0} (e : Error)
      → ((h : History) → P h → Q (err e) h)
      → Triple P (raise e) Q
  unfolding raise
  Triple-raise {Q} e w = record { at = λ h p. subst (Q (err e)) (sym (append-nil h)) (w h p) }

  -- The value of an attempt is the whole result.
  pub Triple-attempt :
      (Q : Result A → History → Type 0) (m : Exec A)
      → Triple P m Q
      → Triple P (attempt m) (Attempted Q)
  unfolding attempt
  Triple-attempt Q m t = record { at = t.at }

-- Calls that leave `P` alone leave it alone together, and the result is one that `m` returns.
pub Triple-keep :
    {A : Type 0} {P : History → Type 0} (allowed : Call → Type 0) (m : Exec A)
    → Emits allowed m
    → ((h : History) (es : List Event) → All (Allowed allowed) es → P h → P (h ++ es))
    → Triple P m (λ r h. P h × ((g : History) × ((m g).0 ≡ r)))
Triple-keep allowed m e stable = record { at = λ h p. (stable h (m h).1 (e.at h) p, (h, refl)) }
