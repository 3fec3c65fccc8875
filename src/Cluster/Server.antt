-- ===== src/Cluster/Server.antt =====
-- What the API server is taken to keep, and what a claim in hand means.
use xenonite.Base.{
  suc, String, false, ◌==◌, eq_iff, ◌≡◌, ◌≢◌, refl, sym, subst, ap, ◌∙◌, List, ◌++◌, All, inl, inr,
  Bool-cases, arith,
}
use xenonite.Api.Core.{Error}
use xenonite.Api.NodeClaim.{XenonNodeClaim}
use xenonite.Exec.{Call, Event, called, ok, err, History, External, request, Exec}
use xenonite.Exec.Emits.{Allowed, Emits}
use xenonite.Exec.Failures.{Result-cases}
use xenonite.Exec.Triple.{Triple, Triple-keep, Triple-weaken}
use xenonite.Cluster.Ledger.{
  Ledger, ledger, ledger_last, entered, settled-same, ledger-neutral, IsCovered, IsOnce, IsNeutral,
}

-- The API server: a read, and the answer to a write of the metadata, hold the providerID that was
-- stored for the claim by the last write of its status that was answered without an error.
pub record IsFaithful (ext : External) : Type 0 where
  pub reads :
      (h : History) (name : String) (c : XenonNodeClaim)
      → ext.answer h (Call.get_claim name) ≡ ok c
      → c.status.provider_id ≡ (ledger c.metadata.name h).recorded
  pub updates :
      (h : History) (sent c : XenonNodeClaim)
      → ext.answer h (Call.update_claim sent) ≡ ok c
      → c.status.provider_id ≡ (ledger c.metadata.name h).recorded

-- Seen from the claim with the name `w`: all is in order.
abbrev pub Once : String → History → Type 0
Once w h = IsOnce (ledger w h)

-- The claim was read, and nothing was written since.
pub record InHand (w : String) (c : XenonNodeClaim) (h : History) : Type 0 where
  pub once : Once w h
  pub same : c.metadata.name ≡ w → c.status.provider_id ≡ (ledger w h).recorded

-- The claim's status is to be written next.
pub record IsPending (w : String) (c : XenonNodeClaim) (h : History) : Type 0 where
  pub own : c.metadata.name ≡ w → IsCovered c.status.provider_id (ledger w h)
  pub other : c.metadata.name ≢ w → Once w h
  pub calm : (ledger w h).cloning ≡ false

module _ (w : String) where
  pub InHand-IsPending : (c : XenonNodeClaim) (h : History) → InHand w c h → IsPending w c h
  InHand-IsPending c h i = record {
    own = λ e. rw (i.same e) i.once.1;
    other = λ _. i.once;
    calm = i.once.0;
  }

  pub Once-stable :
      (h : History) (es : List Event) → All (Allowed IsNeutral) es → Once w h → Once w (h ++ es)
  Once-stable h es q o = subst IsOnce (sym (ledger-neutral w h es o.0 q)) o

  pub InHand-stable :
      (c : XenonNodeClaim) (h : History) (es : List Event)
      → All (Allowed IsNeutral) es
      → InHand w c h
      → InHand w c (h ++ es)
  InHand-stable c h es q i = record {
    once = Once-stable h es q i.once;
    same = λ e. i.same e ∙ ap (λ l. l.recorded) (sym (ledger-neutral w h es i.once.0 q));
  }

  -- An id more that is lost covers what the status would have.
  IsCovered-lost :
      (l : Ledger) (id : String)
      → IsCovered id l
      → IsCovered l.recorded (record l { lost = suc l.lost; cloning = false })
  IsCovered-lost l id covered = ground (arith, covered)

  -- After the write of a status, of the claim itself or of another.
  module _ (c : XenonNodeClaim) (l : Ledger) (calm : l.cloning ≡ false)
      (own : c.metadata.name ≡ w → IsCovered c.status.provider_id l)
      (other : c.metadata.name ≢ w → IsOnce l) where
    elsewhere : (c.metadata.name == w) ≡ false → IsOnce l
    elsewhere f = other (λ e. let t = (eq_iff c.metadata.name w).1 e in cc)

    written :
        (c' : XenonNodeClaim) → IsOnce (entered w l (called (Call.update_claim_status c) (ok c')))
    written c' = elim (Bool-cases (c.metadata.name == w)) [
      | inl t ↦ rw t (refl, own ((eq_iff c.metadata.name w).0 t))
      | inr f ↦ rw f (subst IsOnce (sym (settled-same l calm)) (elsewhere f))
    ]

    refused : (e : Error) → IsOnce (entered w l (called (Call.update_claim_status c) (err e)))
    refused e = elim (Bool-cases (c.metadata.name == w)) [
      | inl t ↦
          rw t (refl, IsCovered-lost l c.status.provider_id (own ((eq_iff c.metadata.name w).0 t)))
      | inr f ↦ rw f (subst IsOnce (sym (settled-same l calm)) (elsewhere f))
    ]

  -- A write of the status sets all in order.
  pub status_write-Once :
      (ext : External) (c : XenonNodeClaim)
      → Triple (IsPending w c) (request ext (Call.update_claim_status c)) (λ _ h. Once w h)
  unfolding request
  status_write-Once ext c = record {
    at = λ h p. elim (Result-cases (ext.answer h (Call.update_claim_status c))) [
      | inl (c', e) ↦ rw e (
          subst IsOnce (sym (ledger_last w h (called (Call.update_claim_status c) (ok c'))))
            (written c (ledger w h) p.calm p.own p.other c'))
      | inr (f, e) ↦ rw e (
          subst IsOnce (sym (ledger_last w h (called (Call.update_claim_status c) (err f))))
            (refused c (ledger w h) p.calm p.own p.other f))
    ];
  }

  -- Calls that leave the ledger alone keep what is known of it.
  pub neutral-keeps :
      {A : Type 0} (P : Ledger → Type 0) (m : Exec A)
      → ((l : Ledger) → P l → l.cloning ≡ false)
      → Emits IsNeutral m
      → Triple (λ h. P (ledger w h)) m (λ _ h. P (ledger w h))
  neutral-keeps P m calm e =
      Triple-weaken m
        (Triple-keep IsNeutral m e
          (λ h es q p. subst P (sym (ledger-neutral w h es (calm (ledger w h) p) q)) p))
        (λ _ _ kept. kept.0)

  -- Calls that leave the ledger alone leave a claim in hand.
  pub neutral-InHand :
      {A : Type 0} (c : XenonNodeClaim) (m : Exec A)
      → Emits IsNeutral m
      → Triple (InHand w c) m (λ _ h. InHand w c h)
  neutral-InHand c m e =
      Triple-weaken m (Triple-keep IsNeutral m e (InHand-stable c)) (λ _ _ kept. kept.0)
