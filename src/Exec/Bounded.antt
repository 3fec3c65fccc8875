-- ===== src/Exec/Bounded.antt =====
-- How many calls an action makes, and how many seconds it may wait for tasks, whatever the answers.
use xenonite.Base.{
  ℕ, ◌+◌, ◌≤◌, String, List, [], ◌∷◌, ◌++◌, ◌≡◌, refl, Bool, true, false, if◌then◌else◌, arith,
}
use xenonite.Api.Core.{Error, Arg}
use xenonite.Exec.{
  Result, ok, err, Call, Event, called, read_clock, History, External, Exec, continue, pure, raise,
  attempt, wrap, request, ◌>>=◌,
}

abbrev pub calls : List Event → ℕ
calls [] = 0
calls (called _ _ ∷ es) = 1 + calls es
calls (read_clock _ ∷ es) = calls es

-- What the wait for a task is told to take at most.
abbrev pub timeout : Call → ℕ
timeout (Call.pve_wait _ seconds) = seconds
timeout _ = 0

abbrev pub waits : List Event → ℕ
waits [] = 0
waits (called c _ ∷ es) = timeout c + waits es
waits (read_clock _ ∷ es) = waits es

pub calls-append : (es fs : List Event) → calls (es ++ fs) ≡ calls es + calls fs
calls-append [] fs = omega arith
calls-append (called c r ∷ es) fs = omega (arith, calls-append es fs)
calls-append (read_clock t ∷ es) fs = calls-append es fs

pub waits-append : (es fs : List Event) → waits (es ++ fs) ≡ waits es + waits fs
waits-append [] fs = omega arith
waits-append (called c r ∷ es) fs = omega (arith, waits-append es fs)
waits-append (read_clock t ∷ es) fs = waits-append es fs

-- At most `n` calls, and at most `s` seconds of waits.
abbrev pub IsWithin : ℕ → ℕ → List Event → Type 0
IsWithin n s es = (calls es ≤ n) × (waits es ≤ s)

pub record Bounded {ℓ} {A : Type ℓ} (n s : ℕ) (m : Exec A) : Type 0 where
  pub at : (h : History) → IsWithin n s (m h).1

module _ {ℓ} {A : Type ℓ} where
  pub Bounded-more :
      {n s : ℕ} (n' s' : ℕ) (m : Exec A) → n ≤ n' → s ≤ s' → Bounded n s m → Bounded n' s' m
  Bounded-more n' s' m few short b = record {
    at = λ h. let (c, w) = b.at h in omega (arith, few, short, c, w);
  }

  pub Bounded-pure : (a : A) → Bounded 0 0 (pure a)
  unfolding pure
  Bounded-pure a = record { at = λ h. omega arith }

  pub Bounded-raise : (e : Error) → Bounded 0 0 (raise {A = A} e)
  unfolding raise
  Bounded-raise e = record { at = λ h. omega arith }

  pub Bounded-attempt : {n s : ℕ} (m : Exec A) → Bounded n s m → Bounded n s (attempt m)
  unfolding attempt
  Bounded-attempt m b = record { at = b.at }

  pub Bounded-wrap :
      {n s : ℕ} (format : String) (args : List Arg) (m : Exec A)
      → Bounded n s m
      → Bounded n s (wrap format args m)
  unfolding wrap
  Bounded-wrap format args m b = record { at = b.at }

  pub Bounded-if :
      {n s : ℕ} (b : Bool) (x y : Exec A)
      → Bounded n s x
      → Bounded n s y
      → Bounded n s (if b then x else y)
  Bounded-if true x y bx by = bx
  Bounded-if false x y bx by = by

module _ {ℓ κ} {A : Type ℓ} {B : Type κ} where
  IsWithin-continue :
      (n s n' s' : ℕ) (r : Result A) (f : A → Exec B) (h : History) (es : List Event)
      → IsWithin n s es
      → ((a : A) → r ≡ ok a → Bounded n' s' (f a))
      → IsWithin (n + n') (s + s') (continue r f h es).1
  IsWithin-continue n s n' s' (ok a) f h es (c, w) next =
      let (c', w') = (next a refl).at (h ++ es) in
      omega
        (arith, c, w, c', w', calls-append es (f a (h ++ es)).1, waits-append es (f a (h ++ es)).1)
  IsWithin-continue n s n' s' (err _) f h es (c, w) next = omega (arith, c, w)

  -- Of the values of the first action, only those that it returns count.
  pub Bounded-bind_from :
      {n s n' s' : ℕ} (m : Exec A) (f : A → Exec B)
      → Bounded n s m
      → ((a : A) (g : History) → (m g).0 ≡ ok a → Bounded n' s' (f a))
      → Bounded (n + n') (s + s') (m >>= f)
  unfolding ◌>>=◌
  Bounded-bind_from {n} {s} {n'} {s'} m f b next = record {
    at = λ h. IsWithin-continue n s n' s' (m h).0 f h (m h).1 (b.at h) (λ a e. next a h e);
  }

  pub Bounded-bind :
      {n s n' s' : ℕ} (m : Exec A) (f : A → Exec B)
      → Bounded n s m
      → ((a : A) → Bounded n' s' (f a))
      → Bounded (n + n') (s + s') (m >>= f)
  Bounded-bind m f b next = Bounded-bind_from m f b (λ a g e. next a)

pub Bounded-request : (ext : External) (c : Call) → Bounded 1 (timeout c) (request ext c)
unfolding request
Bounded-request ext c = record { at = λ h. omega arith }
