-- ===== src/Cluster/Reach.antt =====
-- The controllers at work: their reconciles in any order, with anything between them that other
-- actors do.
use xenonite.Base.{ℕ, suc, none, ◌≡◌, ◌≤◌, String, List, [], ◌++◌, refl, All, arith}
use xenonite.Exec.{Call, Event, External, History}
use xenonite.Exec.Emits.{Allowed, Emits-widen}
use xenonite.Claim.Reconcile.{XenonNodeClaimReconciler, factory, reconcile_claim}
use xenonite.Provisioner.Reconcile.{reconcile_pool}
use xenonite.Cluster.Ledger.{ledger, ledger_nil, IsOnce, IsNeutral}
use xenonite.Cluster.Server.{IsFaithful, Once-stable}
use xenonite.Cluster.Backend.{proxmox_provider-IsAccountable}
use xenonite.Cluster.TearDown.{IsAccountableFactory}
use xenonite.Cluster.Claims.{reconcile_claim-Once}
use xenonite.Cluster.Pools.{reconcile_pool-IsNeutral}
use xenonite.Cluster.Work.{IsWork}
use xenonite.Cluster.Work.Reconcile.{CallsMachinesFactory, reconcile_claim-IsWork}
use xenonite.Cluster.Census.{IsCensus, HasLimit}
use xenonite.Cluster.Limit.{quiet-Within, reconcile_pool-Within}
use xenonite.Provisioner.Reconcile.Exclusive.{IsNoCreation}
use xenonite.Provisioner.ScaleUp.Claims.{SetsOwnerOnly}

-- The histories that the controllers come to, where others make any calls that are allowed them.
pub data Reaches (ext : External) (r : XenonNodeClaimReconciler) (allowed : Call → Type 0)
    : History → Type 0 where
  start : Reaches ext r allowed []
  claim_run :
      {h : History}
      → Reaches ext r allowed h
      → (name : String) → Reaches ext r allowed (h ++ (reconcile_claim ext r name h).1)
  pool_run :
      {h : History}
      → Reaches ext r allowed h
      → (name : String) → Reaches ext r allowed (h ++ (reconcile_pool ext name h).1)
  others :
      {h : History}
      → Reaches ext r allowed h
      → (es : List Event) → All (Allowed allowed) es
      → Reaches ext r allowed (h ++ es)

work-IsNoCreation : (c : Call) → IsWork c → IsNoCreation c
work-IsNoCreation (Call.create_claim _) a = a
work-IsNoCreation _ a = tt

-- For any backends that account for their clones.
accountable-IsOnce :
    (ext : External) (r : XenonNodeClaimReconciler)
    → IsFaithful ext
    → IsAccountableFactory ext r
    → {h : History} → Reaches ext r IsNeutral h
    → (name : String) → IsOnce (ledger name h)
accountable-IsOnce ext r faithful accountable start name = rw ledger_nil (refl, omega arith)
accountable-IsOnce ext r faithful accountable (claim_run {h} before n) name =
    (reconcile_claim-Once ext faithful name r accountable n).at h
      (accountable-IsOnce ext r faithful accountable before name)
accountable-IsOnce ext r faithful accountable (pool_run {h} before n) name =
    Once-stable name h _ ((reconcile_pool-IsNeutral ext n).at h)
      (accountable-IsOnce ext r faithful accountable before name)
accountable-IsOnce ext r faithful accountable (others {h} before es quiet) name =
    Once-stable name h es quiet (accountable-IsOnce ext r faithful accountable before name)

Proxmox-IsAccountable :
    (ext : External) (r : XenonNodeClaimReconciler)
    → r.new_provider ≡ none
    → IsAccountableFactory ext r
unfolding factory
Proxmox-IsAccountable ext r real spec creds =
    rw real (proxmox_provider-IsAccountable ext spec creds)

-- However the reconciles of claims and pools follow one another, and whatever fails, the VMs that
-- were cloned under a claim's name are no more than one for the providerID that its status holds, if
-- any, and one for each id that was lost: by a write of the claim's status that was answered with an
-- error, or by an accepted clone whose wait, made right after, was. So without these two failures it
-- is one VM at most, and none before a providerID is stored. The backend is that of Proxmox; the API
-- server returns for a claim the providerID of the last write of its status that was answered
-- without an error; and nobody else clones a VM or writes a claim's status.
pub Reaches-IsOnce :
    (ext : External) (r : XenonNodeClaimReconciler)
    → IsFaithful ext
    → r.new_provider ≡ none
    → {h : History} → Reaches ext r IsNeutral h
    → (name : String) → IsOnce (ledger name h)
Reaches-IsOnce ext r faithful real =
    accountable-IsOnce ext r faithful (Proxmox-IsAccountable ext r real)

-- However the reconciles of claims and pools follow one another, a pool with a limit never has more
-- claims than the limit. No list of the pool's claims misses one, only the creation of a claim with
-- the pool's label adds one, and the controllers alone make claims.
pub Reaches-Within :
    (ext : External) (r : XenonNodeClaimReconciler)
    → CallsMachinesFactory ext r
    → SetsOwnerOnly ext
    → (pool : String) (l : ℕ) → HasLimit ext pool (suc l)
    → (census : History → ℕ) → IsCensus ext pool census
    → census [] ≤ suc l
    → {h : History} → Reaches ext r IsNoCreation h
    → census h ≤ suc l
Reaches-Within ext r calls owner pool l limit census counted few start = few
Reaches-Within ext r calls owner pool l limit census counted few (claim_run {h} before n) =
    quiet-Within ext owner pool l limit census counted h _
      ((Emits-widen work-IsNoCreation _ (reconcile_claim-IsWork ext r calls n)).at h)
      (Reaches-Within ext r calls owner pool l limit census counted few before)
Reaches-Within ext r calls owner pool l limit census counted few (pool_run {h} before n) =
    (reconcile_pool-Within ext owner pool l limit census counted n).at h
      (Reaches-Within ext r calls owner pool l limit census counted few before)
Reaches-Within ext r calls owner pool l limit census counted few (others {h} before es quiet) =
    quiet-Within ext owner pool l limit census counted h es quiet
      (Reaches-Within ext r calls owner pool l limit census counted few before)
