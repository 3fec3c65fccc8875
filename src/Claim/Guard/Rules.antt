-- ===== src/Claim/Guard/Rules.antt =====
-- Rules for `Guarded`: what a quiet action may stand before and after.
use xenonite.Base.{◌≡◌, refl, List, [], ◌∷◌, ◌++◌, All, arith, append-nil, subst}
use xenonite.Exec.{
  Call, Event, called, read_clock, History, Result, ok, err, Exec, External, continue, ◌>>=◌,
}
use xenonite.Exec.Emits.{Allowed, Emits}
use xenonite.Claim.Guard.{Seen, IsQuiet, Guarded, seen_after}

module _ (ext : External) where
  quiet_step :
      (s : Seen) (e : Event) (es : List Event)
      → Allowed IsQuiet e
      → Guarded ext s es
      → Guarded ext s (e ∷ es)
  quiet_step s (read_clock t) es a g = (tt, g)
  quiet_step s (called (Call.get_claim n) r) es a g = absurd a
  quiet_step s (called _ r) es a g = ground arith

  quiet_ahead :
      (s : Seen) (es es' : List Event)
      → All (Allowed IsQuiet) es
      → Guarded ext s es'
      → Guarded ext s (es ++ es')
  quiet_ahead s [] es' q g = g
  quiet_ahead s (e ∷ es) es' (qe, q) g = quiet_step s e (es ++ es') qe (quiet_ahead s es es' q g)

  Guarded-quiet : (s : Seen) (es : List Event) → All (Allowed IsQuiet) es → Guarded ext s es
  Guarded-quiet s es q = subst (Guarded ext s) (append-nil es) (quiet_ahead s es [] q tt)

  quiet_behind :
      (s : Seen) (es es' : List Event)
      → Guarded ext s es
      → All (Allowed IsQuiet) es'
      → Guarded ext s (es ++ es')
  quiet_behind s [] es' g q = Guarded-quiet s es' q
  quiet_behind s (e ∷ es) es' (ge, g) q = (ge, quiet_behind (seen_after ext s e) es es' g q)

  -- Whatever the answers, the action's events are guarded from `s` on.
  pub record IsSafe {ℓ} {A : Type ℓ} (s : Seen) (m : Exec A) : Type 0 where
    pub at : (h : History) → Guarded ext s (m h).1

  module _ {ℓ} {A : Type ℓ} {s : Seen} where
    pub IsSafe-quiet : (m : Exec A) → Emits IsQuiet m → IsSafe s m
    IsSafe-quiet m q = record { at = λ h. Guarded-quiet s (m h).1 (q.at h) }

  module _ {ℓ κ} {A : Type ℓ} {B : Type κ} (s : Seen) where
    ahead :
        (r : Result A) (f : A → Exec B) (h : History) (es : List Event)
        → All (Allowed IsQuiet) es
        → ((a : A) → r ≡ ok a → IsSafe s (f a))
        → Guarded ext s (continue r f h es).1
    ahead (ok a) f h es q sf = quiet_ahead s es _ q ((sf a refl).at (h ++ es))
    ahead (err e) f h es q sf = Guarded-quiet s es q

    behind :
        (r : Result A) (f : A → Exec B) (h : History) (es : List Event)
        → Guarded ext s es
        → ((a : A) → Emits IsQuiet (f a))
        → Guarded ext s (continue r f h es).1
    behind (ok a) f h es g qf = quiet_behind s es _ g ((qf a).at (h ++ es))
    behind (err e) f h es g qf = g

  module _ {ℓ κ} {A : Type ℓ} {B : Type κ} {s : Seen} where
    -- Quiet first, then safe for what was returned.
    pub IsSafe-bind_quiet :
        (m : Exec A) (f : A → Exec B)
        → Emits IsQuiet m
        → ((h : History) (a : A) → (m h).0 ≡ ok a → IsSafe s (f a))
        → IsSafe s (m >>= f)
    unfolding ◌>>=◌
    IsSafe-bind_quiet m f q sf = record { at = λ h. ahead s (m h).0 f h (m h).1 (q.at h) (sf h) }

    -- Safe first, then quiet.
    pub IsSafe-then_quiet :
        (m : Exec A) (f : A → Exec B)
        → IsSafe s m
        → ((a : A) → Emits IsQuiet (f a))
        → IsSafe s (m >>= f)
    unfolding ◌>>=◌
    IsSafe-then_quiet m f sm qf = record { at = λ h. behind s (m h).0 f h (m h).1 (sm.at h) qf }

-- No clone at all.
abbrev pub IsCloneless : Call → Type 0
IsCloneless (Call.pve_clone _ _) = ⊥
IsCloneless _ = Unit

module _ (ext : External) where
  cloneless_step :
      (s : Seen) (e : Event) (es : List Event)
      → Allowed IsCloneless e
      → Guarded ext (seen_after ext s e) es
      → Guarded ext s (e ∷ es)
  cloneless_step s (read_clock t) es a g = (tt, g)
  cloneless_step s (called (Call.pve_clone _ _) r) es a g = absurd a
  cloneless_step s (called _ r) es a g = (tt, g)

  Guarded-cloneless : (s : Seen) (es : List Event) → All (Allowed IsCloneless) es → Guarded ext s es
  Guarded-cloneless s [] q = tt
  Guarded-cloneless s (e ∷ es) (qe, q) =
      cloneless_step s e es qe (Guarded-cloneless (seen_after ext s e) es q)

  pub IsSafe-cloneless {ℓ} :
      {A : Type ℓ} {s : Seen} (m : Exec A) → Emits IsCloneless m → IsSafe ext s m
  IsSafe-cloneless {s = s} m q = record { at = λ h. Guarded-cloneless s (m h).1 (q.at h) }
