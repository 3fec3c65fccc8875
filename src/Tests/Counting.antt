-- ===== src/Tests/Counting.antt =====
-- The small cluster with an API server that lists the claims that were made.
use xenonite.Base.{
  ℕ, ◌+◌, ◌≤◌, String, ◌==◌, eq_iff, ◌≡◌, refl, subst, List, [], ◌∷◌, ◌++◌, length, if◌then◌else◌,
  arith, true,
}
use xenonite.Base.Int.{pos, ◌+ℤ◌, ◌-ℤ◌}
use xenonite.Provisioner.Pods.{is_pod_unschedulable, pod_requests_pool}
use xenonite.Base.Dict.{lookup, entry}
use xenonite.Api.Labels.{label_node_pool}
use xenonite.Api.NodeClaim.{XenonNodeClaim}
use xenonite.Exec.{
  Call, Reply, Event, called, read_clock, Result, ok, History, External, request, ◌>>=◌, attempt,
  pure, lift,
}
use xenonite.Claim.Reconcile.{factory}
use xenonite.Provisioner.ScaleUp.{
  pool_node_limit, scale_up, claims_needed, create_claims, create_claim, in_flight, new_claim,
}
use xenonite.Provisioner.ScaleUp.Claims.{SetsOwnerOnly}
use xenonite.Provisioner.ScaleDown.{scale_down}
use xenonite.Provisioner.Reconcile.{
  reconcile_pool, pending_for, pending_pods_for_pool, claims_for_pool, update_status,
}
use xenonite.Cluster.Census.{Adds, IsCensus, HasLimit}
use xenonite.Cluster.Work.{proxmox_provider-CallsMachines}
use xenonite.Cluster.Work.Reconcile.{CallsMachinesFactory}
use xenonite.Cluster.Reach.{start, pool_run, Reaches-Within}
use xenonite.Tests.World.{Scene, answer, world, pool, new_machine, waiting_pod}
use xenonite.Tests.Keeping.{reconciler}

-- The claims that were made with the pool's label.
abbrev made : String → List Event → List XenonNodeClaim
made name [] = []
made name (called (Call.create_claim c) r ∷ es) =
    let rest = made name es in
    if entry label_node_pool c.metadata.labels == name then c ∷ rest else rest
made name (called _ _ ∷ es) = made name es
made name (read_clock _ ∷ es) = made name es

abbrev census : String → History → ℕ
census name h = length (made name h)

census-append :
    (name : String) (h : History) (e : Event)
    → census name (h ++ e ∷ []) ≡ census name h + census name (e ∷ [])
census-append name [] e = omega arith
census-append name (called (Call.create_claim c) r ∷ h) e = ground (arith, census-append name h e)
census-append name (called _ _ ∷ h) e = census-append name h e
census-append name (read_clock _ ∷ h) e = census-append name h e

census_one : (name : String) (e : Event) → census name (e ∷ []) ≤ 1
census_one name (called (Call.create_claim c) r) = ground arith
census_one name (called _ _) = omega arith
census_one name (read_clock _) = omega arith

census_none : (name : String) (e : Event) → (Adds name e → ⊥) → census name (e ∷ []) ≡ 0
census_none name (called (Call.create_claim c) r) other =
    ground (arith, eq_iff (entry label_node_pool c.metadata.labels) name, other)
census_none name (called _ _) other = refl
census_none name (read_clock _) other = refl

abbrev scene : Scene
scene = record {
  claim = new_machine;
  pool_found = true;
  proxmox_up = true;
  pods = waiting_pod ∷ waiting_pod ∷ waiting_pod ∷ [];
  claims = [];
}

abbrev listed : History → (c : Call) → Result (Reply c)
listed h (Call.list_claims name) = ok (made name h)
listed h c = answer scene h c

abbrev counting : External
counting = record (world scene) { answer = listed }

counting-IsCensus : IsCensus counting "gpu" (census "gpu")
counting-IsCensus = record {
  lists = λ h claims e. ground (arith, e);
  adds = λ h e. omega (arith, census-append "gpu" h e, census_one "gpu" e);
  keeps = λ h e other. omega (arith, census-append "gpu" h e, census_none "gpu" e other);
}

counting-HasLimit : HasLimit counting "gpu" 2
unfolding pool_node_limit lookup
counting-HasLimit h name p e _ =
    let same : pool ≡ p = ground (arith, e) in subst (λ p. pool_node_limit p ≡ pos 2) same refl

owner_only : SetsOwnerOnly counting
owner_only pool claim owned e = ground (arith, e)

machines_only : CallsMachinesFactory counting reconciler
unfolding factory
machines_only spec creds = proxmox_provider-CallsMachines counting spec creds

abbrev after_one : History
after_one = (reconcile_pool counting "gpu" []).1

abbrev after_two : History
after_two = after_one ++ (reconcile_pool counting "gpu" after_one).1

Reaches-Within_example : census "gpu" after_two ≤ 2
Reaches-Within_example =
    Reaches-Within counting reconciler machines_only owner_only "gpu" 1 counting-HasLimit
      (census "gpu") counting-IsCensus (omega arith) (pool_run (pool_run start "gpu") "gpu")

-- Three pods wait, and the first run makes two claims.
two_made : census "gpu" after_one ≡ 2
unfolding reconcile_pool pending_pods_for_pool claims_for_pool pending_for scale_up scale_down
    update_status ◌>>=◌ request attempt pure lift is_pod_unschedulable pod_requests_pool lookup
    create_claims claims_needed pool_node_limit ◌+ℤ◌ ◌-ℤ◌ in_flight create_claim new_claim
two_made = refl
