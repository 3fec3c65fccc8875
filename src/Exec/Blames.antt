-- ===== src/Exec/Blames.antt =====
-- Where an error comes from: actions that return one only after an event that explains it, or from
-- a history that does.
use xenonite.Base.{
  String, List, ◌++◌, ◌≡◌, ap, refl, subst, append_assoc, Any, Any-right, ◌⊎◌, inl, inr, arith,
}
use xenonite.Api.Core.{Error, Arg}
use xenonite.Exec.{Result, ok, err, Event, History, Exec, continue, wrap, wrap_result, ◌>>=◌}
use xenonite.Exec.Triple.{Triple}
use xenonite.Exec.Yields.{Yields}

-- From a history that meets `P`, an error of the action comes with an event that explains it, or
-- it and the history after it meet `S`.
pub record Blames {ℓ} {A : Type ℓ} (Breaks : Event → Type 0) (S : Error → History → Type 0)
    (P : History → Type 0) (m : Exec A) : Type ℓ where
  pub at :
      (h : History) (e : Error) → P h → (m h).0 ≡ err e → Any Breaks (m h).1 ⊎ S e (h ++ (m h).1)

module _ {ℓ κ} {A : Type ℓ} {B : Type κ} {Breaks : Event → Type 0}
    {S : Error → History → Type 0} where
  Blames-continue :
      (R : A → History → Type 0) (r : Result A) (f : A → Exec B) (h : History) (es : List Event)
      (e : Error)
      → Yields R r (h ++ es)
      → ((e : Error) → r ≡ err e → Any Breaks es ⊎ S e (h ++ es))
      → ((a : A) → Blames Breaks S (R a) (f a))
      → (continue r f h es).0 ≡ err e
      → Any Breaks (continue r f h es).1 ⊎ S e (h ++ (continue r f h es).1)
  Blames-continue R (ok a) f h es e met first next q = elim ((next a).at (h ++ es) e met q) [
    | inl b ↦ inl (Any-right Breaks es _ b)
    | inr s ↦ inr (subst (S e) (append_assoc h es (f a (h ++ es)).1) s)
  ]
  Blames-continue R (err e') f h es e met first next q =
      let same : e' ≡ e = ground (arith, q) in first e (ap err same)

  pub Blames-bind :
      {P : History → Type 0} (m : Exec A) (f : A → Exec B) (R : A → History → Type 0)
      → Triple P m (Yields R)
      → Blames Breaks S P m
      → ((a : A) → Blames Breaks S (R a) (f a))
      → Blames Breaks S P (m >>= f)
  unfolding ◌>>=◌
  Blames-bind m f R yields first next = record {
    at = λ h e p q.
        Blames-continue R (m h).0 f h (m h).1 e (yields.at h p) (λ e' q'. first.at h e' p q') next
          q;
  }

wrapped {ℓ} :
    {A : Type ℓ} (format : String) (args : List Arg) (r : Result A) (e : Error)
    → wrap_result format args r ≡ err e
    → (e' : Error) × (r ≡ err e')
wrapped format args (ok a) e q = absurd (ground arith)
wrapped format args (err e') e q = (e', refl)

module _ {ℓ} {A : Type ℓ} {Breaks : Event → Type 0} {S : Error → History → Type 0}
    {P : History → Type 0} where
  pub Blames-events :
      (m : Exec A)
      → ((h : History) (e : Error) → P h → (m h).0 ≡ err e → Any Breaks (m h).1)
      → Blames Breaks S P m
  Blames-events m b = record { at = λ h e p q. inl (b h e p q) }

  pub Blames-wrap :
      (format : String) (args : List Arg) (m : Exec A)
      → ((h : History) (e : Error) → P h → (m h).0 ≡ err e → Any Breaks (m h).1)
      → Blames Breaks S P (wrap format args m)
  unfolding wrap
  Blames-wrap format args m b = record {
    at = λ h e p q. let (e', q') = wrapped format args (m h).0 e q in inl (b h e' p q');
  }
