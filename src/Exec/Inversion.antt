-- ===== src/Exec/Inversion.antt =====
-- Where an event of a sequence of actions comes from.
use xenonite.Base.{
  String, ◌≡◌, refl, sym, subst, List, [], ◌∷◌, ◌++◌, ◌⊎◌, inl, inr, All, Any, Any-append, Any-left,
  Any-right, arith,
}
use xenonite.Api.Core.{Arg}
use xenonite.Exec.{
  Call, Reply, Event, called, External, History, Result, ok, err, Exec, continue, wrap, request,
  ◌>>=◌,
}
use xenonite.Exec.Failures.{Result-cases}
use xenonite.Exec.Emits.{Allowed, Emits}

module _ {ℓ κ} {A : Type ℓ} {B : Type κ} (P : Event → Type 0) where
  Any-continue :
      (r : Result A) (f : A → Exec B) (h : History) (es : List Event)
      → Any P (continue r f h es).1
      → Any P es ⊎ ((a : A) × (r ≡ ok a) × Any P (f a (h ++ es)).1)
  Any-continue (ok a) f h es p = elim (Any-append P es _ p) [
    | inl early ↦ inl early
    | inr late ↦ inr (a, refl, late)
  ]
  Any-continue (err e) f h es p = inl p

  pub Any-bind :
      (m : Exec A) (f : A → Exec B) (h : History)
      → Any P ((m >>= f) h).1
      → Any P (m h).1 ⊎ ((a : A) × ((m h).0 ≡ ok a) × Any P (f a (h ++ (m h).1)).1)
  unfolding ◌>>=◌
  Any-bind m f h p = Any-continue (m h).0 f h (m h).1 p

module _ (P : Event → Type 0) {allowed : Call → Type 0}
    (excluded : (e : Event) → Allowed allowed e → P e → ⊥) where
  pub not-Any-Allowed : (es : List Event) → All (Allowed allowed) es → Any P es → ⊥
  not-Any-Allowed [] q p = p
  not-Any-Allowed (e ∷ es) (qe, q) (inl p) = excluded e qe p
  not-Any-Allowed (e ∷ es) (qe, q) (inr p) = not-Any-Allowed es q p

  -- An event that the first action cannot make comes from the second.
  pub Any-bind_later {ℓ κ} :
      {A : Type ℓ} {B : Type κ} (m : Exec A) (f : A → Exec B) (h : History)
      → Emits allowed m
      → Any P ((m >>= f) h).1
      → (a : A) × ((m h).0 ≡ ok a) × Any P (f a (h ++ (m h).1)).1
  Any-bind_later m f h q p = elim (Any-bind P m f h p) [
    | inl early ↦ absurd (not-Any-Allowed (m h).1 (q.at h) early)
    | inr late ↦ late
  ]

module _ {ℓ κ} {A : Type ℓ} {B : Type κ} (P : Event → Type 0) where
  continue-Any :
      (r : Result A) (f : A → Exec B) (h : History) (es : List Event) (a : A)
      → r ≡ ok a
      → Any P (f a (h ++ es)).1
      → Any P (continue r f h es).1
  continue-Any (ok b) f h es a e p =
      Any-right P es (f b (h ++ es)).1
        (let same : a ≡ b = ground arith in subst (λ b. Any P (f b (h ++ es)).1) same p)
  continue-Any (err _) f h es a e p = cc

  continue-Any_first :
      (r : Result A) (f : A → Exec B) (h : History) (es : List Event)
      → Any P es
      → Any P (continue r f h es).1
  continue-Any_first (ok b) f h es p = Any-left P es (f b (h ++ es)).1 p
  continue-Any_first (err _) f h es p = p

  -- An event of what follows a value is an event of the whole.
  pub bind-Any :
      (m : Exec A) (f : A → Exec B) (h : History) (a : A)
      → (m h).0 ≡ ok a
      → Any P (f a (h ++ (m h).1)).1
      → Any P ((m >>= f) h).1
  unfolding ◌>>=◌
  bind-Any m f h a e p = continue-Any (m h).0 f h (m h).1 a e p

  -- An event of the first action is an event of the whole.
  pub bind-Any_first :
      (m : Exec A) (f : A → Exec B) (h : History) → Any P (m h).1 → Any P ((m >>= f) h).1
  unfolding ◌>>=◌
  bind-Any_first m f h p = continue-Any_first (m h).0 f h (m h).1 p

-- The event of a call that is answered with a value.
pub wrapped-Any :
    (ext : External) (P : Event → Type 0) (format : String) (args : List Arg) (c : Call)
    (h : History) (x : Reply c)
    → (wrap format args (request ext c) h).0 ≡ ok x
    → P (called c (ok x))
    → Any P (wrap format args (request ext c) h).1
unfolding wrap request
wrapped-Any ext P format args c h x e holds = elim (Result-cases (ext.answer h c)) [
  | inl (y, q) ↦
      (let same : y ≡ x = ground (arith, rw q at e) in
        rw q (inl (subst (λ z. P (called c (ok z))) (sym same) holds)))
  | inr (er, q) ↦ (let e' = rw q at e in cc)
]
