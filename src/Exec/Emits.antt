-- ===== src/Exec/Emits.antt =====
-- Which calls an action may make, whatever the answers: a rule for each way to build an action.
use xenonite.Api.NodeClaim.{XenonNodeClaim}
use xenonite.Base.{
  ◌≡◌, refl, ℕ, String, List, [], ◌∷◌, ◌++◌, Bool, true, false, All, All-append, if◌then◌else◌,
}
use xenonite.Api.Core.{Error, Arg}
use xenonite.Exec.{
  Result, ok, err, Call, Event, called, read_clock, History, Exec, External, PveTask, PveClient,
  PveVm, pure, raise, lift, attempt, wrap, continue, ◌>>=◌, request, now,
}

-- The event is a look at the clock, or one of the allowed calls.
abbrev pub Allowed : (Call → Type 0) → Event → Type 0
Allowed allowed (called c r) = allowed c
Allowed allowed (read_clock t) = Unit

-- Every call that the action makes is allowed.
pub record Emits {ℓ} {A : Type ℓ} (allowed : Call → Type 0) (m : Exec A) : Type 0 where
  pub at : (h : History) → All (Allowed allowed) (m h).1

module _ {ℓ} {A : Type ℓ} {allowed : Call → Type 0} where
  pub Emits-pure : (a : A) → Emits allowed (pure a)
  unfolding pure
  Emits-pure a = record { at = λ h. tt }

  pub Emits-raise : (e : Error) → Emits allowed (raise {A = A} e)
  unfolding raise
  Emits-raise e = record { at = λ h. tt }

  pub Emits-lift : (r : Result A) → Emits allowed (lift r)
  unfolding lift
  Emits-lift r = record { at = λ h. tt }

  pub Emits-attempt : (m : Exec A) → Emits allowed m → Emits allowed (attempt m)
  unfolding attempt
  Emits-attempt m e = record { at = e.at }

  pub Emits-wrap :
      (format : String) (args : List Arg) (m : Exec A)
      → Emits allowed m
      → Emits allowed (wrap format args m)
  unfolding wrap
  Emits-wrap format args m e = record { at = e.at }

  pub Emits-if :
      (b : Bool) (m n : Exec A)
      → Emits allowed m
      → Emits allowed n
      → Emits allowed (if b then m else n)
  Emits-if true m n em en = em
  Emits-if false m n em en = en

module _ {ℓ κ} {A : Type ℓ} {B : Type κ} {allowed : Call → Type 0} where
  Emits-continue :
      (r : Result A) (f : A → Exec B) (h : History) (es : List Event)
      → All (Allowed allowed) es
      → ((a : A) → Emits allowed (f a))
      → All (Allowed allowed) (continue r f h es).1
  Emits-continue (ok a) f h es given ef =
      All-append (Allowed allowed) es (f a (h ++ es)).1 given ((ef a).at (h ++ es))
  Emits-continue (err e) f h es given ef = given

  pub Emits-bind :
      (m : Exec A) (f : A → Exec B)
      → Emits allowed m
      → ((a : A) → Emits allowed (f a))
      → Emits allowed (m >>= f)
  unfolding ◌>>=◌
  Emits-bind m f em ef = record { at = λ h. Emits-continue (m h).0 f h (m h).1 (em.at h) ef }

  Emits-continue-from :
      (r : Result A) (f : A → Exec B) (h : History) (es : List Event)
      → All (Allowed allowed) es
      → ((a : A) → r ≡ ok a → Emits allowed (f a))
      → All (Allowed allowed) (continue r f h es).1
  Emits-continue-from (ok a) f h es given ef =
      All-append (Allowed allowed) es (f a (h ++ es)).1 given ((ef a refl).at (h ++ es))
  Emits-continue-from (err e) f h es given ef = given

  -- Of the values, only those that `m` returns count.
  pub Emits-bind-from :
      (m : Exec A) (f : A → Exec B)
      → Emits allowed m
      → ((a : A) (g : History) → (m g).0 ≡ ok a → Emits allowed (f a))
      → Emits allowed (m >>= f)
  unfolding ◌>>=◌
  Emits-bind-from m f em ef = record {
    at = λ h. Emits-continue-from (m h).0 f h (m h).1 (em.at h) (λ a e. ef a h e);
  }

module _ {allowed : Call → Type 0} (ext : External) where
  pub Emits-request : (c : Call) → allowed c → Emits allowed (request ext c)
  unfolding request
  Emits-request c e = record { at = λ h. (e, tt) }

  pub Emits-now : Emits allowed (now ext)
  unfolding now
  Emits-now = record { at = λ h. (tt, tt) }

  -- The calls that return nothing, at their computed type, where a search meets them.
  pub Emits-wait :
      (t : PveTask) (n : ℕ)
      → allowed (Call.pve_wait t n)
      → Emits {A = Unit {0}} allowed (request ext (Call.pve_wait t n))
  Emits-wait t n e = Emits-request (Call.pve_wait t n) e

  pub Emits-cluster :
      (c : PveClient)
      → allowed (Call.pve_cluster c)
      → Emits {A = Unit {0}} allowed (request ext (Call.pve_cluster c))
  Emits-cluster c e = Emits-request (Call.pve_cluster c) e

  pub Emits-cloud_init :
      (vm : PveVm) (device user_data storage : String)
      → allowed (Call.pve_cloud_init vm device user_data storage)
      → Emits {A = Unit {0}} allowed (request ext (Call.pve_cloud_init vm device user_data storage))
  Emits-cloud_init vm device user_data storage e =
      Emits-request (Call.pve_cloud_init vm device user_data storage) e

  pub Emits-delete_claim :
      (c : XenonNodeClaim)
      → allowed (Call.delete_claim c)
      → Emits {A = Unit {0}} allowed (request ext (Call.delete_claim c))
  Emits-delete_claim c e = Emits-request (Call.delete_claim c) e

-- Any larger set of calls allows as much.
module _ {allowed wider : Call → Type 0} (widen : (c : Call) → allowed c → wider c) where
  pub All-widen : (es : List Event) → All (Allowed allowed) es → All (Allowed wider) es
  All-widen [] h = tt
  All-widen (called c r ∷ es) (a, h) = (widen c a, All-widen es h)
  All-widen (read_clock t ∷ es) (a, h) = (tt, All-widen es h)

  pub Emits-widen {ℓ} : {A : Type ℓ} (m : Exec A) → Emits allowed m → Emits wider m
  Emits-widen m e = record { at = λ h. All-widen (m h).1 (e.at h) }

pub ruleset emits_rules = (
  Emits-pure, Emits-raise, Emits-lift, Emits-attempt, Emits-wrap, Emits-if, Emits-bind,
  Emits-request, Emits-now, Emits-wait, Emits-cluster, Emits-cloud_init, Emits-delete_claim, tt,
)
