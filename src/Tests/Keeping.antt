-- ===== src/Tests/Keeping.antt =====
-- The small cluster with an API server that keeps the providerIDs that are written.
use xenonite.Base.{◌≡◌, refl, subst, none, arith}
use xenonite.Api.NodeClaim.{XenonNodeClaim}
use xenonite.Exec.{Call, Reply, Result, ok, History, External}
use xenonite.Claim.Reconcile.{XenonNodeClaimReconciler}
use xenonite.Cluster.Ledger.{ledger}
use xenonite.Cluster.Server.{IsFaithful}
use xenonite.Tests.World.{Scene, answer, world}

-- The claim with the providerID that was stored under its name.
abbrev pub stored : History → XenonNodeClaim → XenonNodeClaim
stored h c = record c {
  status = record c.status { provider_id = (ledger c.metadata.name h).recorded };
}

abbrev kept : Scene → History → (c : Call) → Result (Reply c)
kept s h (Call.get_claim name) = ok (stored h s.claim)
kept s h (Call.update_claim c) = ok (stored h c)
kept s h c = answer s h c

abbrev pub keeping : Scene → External
keeping s = record (world s) { answer = kept s }

stored_same :
    (h : History) (c c' : XenonNodeClaim)
    → ◌≡◌ {A = Result XenonNodeClaim} (ok (stored h c)) (ok c')
    → c'.status.provider_id ≡ (ledger c'.metadata.name h).recorded
stored_same h c c' e =
    let same : stored h c ≡ c' = ground arith in
    subst (λ o. o.status.provider_id ≡ (ledger o.metadata.name h).recorded) same refl

pub keeping-IsFaithful : (s : Scene) → IsFaithful (keeping s)
keeping-IsFaithful s = record {
  reads = λ h name c e. stored_same h s.claim c e;
  updates = λ h sent c e. stored_same h sent c e;
}

abbrev pub reconciler : XenonNodeClaimReconciler
reconciler = record { new_provider = none; system_namespace = "xenonite-system" }
