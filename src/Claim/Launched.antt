-- ===== src/Claim/Launched.antt =====
-- A creation that succeeds leaves a machine and its id.
use xenonite.Base.{
  String, List, ◌++◌, ◌≡◌, refl, subst, append_assoc, ◌∙◌, ap, Option, none, some, Any, Any-right,
  arith,
}
use xenonite.Base.Int.{ℤ}
use xenonite.Api.Core.{CtrlResult, Error}
use xenonite.Api.NodeClaim.{XenonNodeClaim}
use xenonite.Api.ProxmoxProvider.{ProxmoxProviderSpec, ProxmoxCredentials}
use xenonite.Exec.{
  Call, Event, called, History, Result, ok, err, Exec, External, request, attempt, ◌>>=◌,
}
use xenonite.Exec.Failures.{ok-bind}
use xenonite.Proxmox.{ProxmoxBackend, new_backend, proxmox_provider, create_machine, target_node}
use xenonite.Proxmox.ProviderId.{new_provider_id}
use xenonite.Proxmox.ProviderId.RoundTrip.{new_provider_id-ne}
use xenonite.Proxmox.Machines.{Machine, Presence, after_all}
use xenonite.Proxmox.Machines.Laws.{NamesHandles}
use xenonite.Proxmox.Presence.{Made, presence-after, create_machine-present}
use xenonite.Claim.Objects.{record_id, create_request}
use xenonite.Claim.Methods.{set_condition, after_create, with_user_data, fail_with_status}
use xenonite.Claim.Reconcile.{XenonNodeClaimReconciler, render_cloud_init, reconcile_create}
use xenonite.Claim.Recording.{provider_id-record_id}
use xenonite.Provider.{CreateRequest}
use xenonite.Claim.Settles.{fail_with_status-ok}

-- The event stores the claim's status with the id, with success.
abbrev pub Stores : String → Event → Type 0
Stores id (called (Call.update_claim_status c) (ok _)) = c.status.provider_id ≡ id
Stores id _ = ⊥

module _ (ext : External) where
  after_create-Stores :
      (claim : XenonNodeClaim) (e : Option Error) (h : History) (b : CtrlResult)
      → (after_create ext claim e h).0 ≡ ok b
      → (e ≡ none)
        × Any (Stores claim.status.provider_id) (after_create ext claim e h).1
        × ((m : Machine)
            → after_all m Presence.present (after_create ext claim e h).1 ≡ Presence.present)
  unfolding after_create fail_with_status set_condition ◌>>=◌ request
  after_create-Stores claim none h b q = (refl, ground arith, λ m. ground arith)
  after_create-Stores claim (some e) h b q = absurd (ground arith)

  -- The machine of the claim is there, and its id is stored.
  pub record IsLaunched (p : ProxmoxBackend) (es : List Event) (h : History) : Type 0 where
    pub vmid : ℤ
    pub made : Made p (target_node p) vmid h
    pub stored : Any (Stores (new_provider_id (target_node p) vmid)) es

  module _ (names : NamesHandles ext) (p : ProxmoxBackend) (claim : XenonNodeClaim)
      (fresh : claim.status.provider_id ≡ "") where
    recorded :
        (n : ℤ)
        → (record_id (new_provider_id (target_node p) n) claim).status.provider_id
          ≡ new_provider_id (target_node p) n
    recorded n = provider_id-record_id _ claim (new_provider_id-ne (target_node p) n) fresh

    then_record : String × Option Error → Exec CtrlResult
    then_record (id, e) = after_create ext (record_id id claim) e

    -- From what the two calls returned and the events of both.
    launched :
        (req : CreateRequest) (h : History) (b : CtrlResult) (id : String) (e : Option Error)
        (all : List Event)
        → (create_machine ext p req h).0 ≡ ok (id, e)
        → (then_record (id, e) (h ++ (create_machine ext p req h).1)).0 ≡ ok b
        → all
          ≡ (create_machine ext p req h).1
            ++ (then_record (id, e) (h ++ (create_machine ext p req h).1)).1
        → IsLaunched p all (h ++ all)
    unfolding then_record
    launched req h b id e all created q same_events =
        let (fine, stores, stays) = after_create-Stores (record_id id claim) e _ b q in
        let (n, same, _, made) =
          create_machine-present ext names p req h id (created ∙ ap (λ x. ok (id, x)) fine) in
        record {
          vmid = n;
          made = rw same_events (
              subst (Made p (target_node p) n) (append_assoc h _ _)
                (presence-after _ (h ++ (create_machine ext p req h).1) _ _ _ made (stays _)));
          stored = rw same_events (
              Any-right _ (create_machine ext p req h).1 _ (
                subst
                  (λ i.
                    Any (Stores i)
                      (after_create ext (record_id id claim) e
                        (h ++ (create_machine ext p req h).1)).1)
                  (ap (λ i. (record_id i claim).status.provider_id) same ∙ recorded n) stores));
        }

    created-IsLaunched :
        (req : CreateRequest) (h : History) (b : CtrlResult)
        → ((create_machine ext p req >>= then_record) h).0 ≡ ok b
        → IsLaunched p
            ((create_machine ext p req >>= then_record) h).1
            (h ++ ((create_machine ext p req >>= then_record) h).1)
    created-IsLaunched req h b q =
        let ((id, e), created, q', all) = ok-bind (create_machine ext p req) then_record h b q in
        launched req h b id e _ created q' all

module _ (ext : External) (names : NamesHandles ext) (spec : ProxmoxProviderSpec)
    (creds : ProxmoxCredentials) (claim : XenonNodeClaim)
    (fresh : claim.status.provider_id ≡ "") where
  with_user_data-IsLaunched :
      (u : Result String) (h : History) (b : CtrlResult)
      → (with_user_data ext claim (proxmox_provider ext spec creds) u h).0 ≡ ok b
      → IsLaunched ext
          (new_backend spec creds)
          (with_user_data ext claim (proxmox_provider ext spec creds) u h).1
          (h ++ (with_user_data ext claim (proxmox_provider ext spec creds) u h).1)
  unfolding with_user_data then_record
  with_user_data-IsLaunched (err e) h b q = absurd (fail_with_status-ok ext _ e h b q)
  with_user_data-IsLaunched (ok u) h b q =
      created-IsLaunched ext names (new_backend spec creds) claim fresh (create_request claim u) h b
        q

  later :
      (h es fs all : History)
      → all ≡ es ++ fs
      → IsLaunched ext (new_backend spec creds) fs ((h ++ es) ++ fs)
      → IsLaunched ext (new_backend spec creds) all (h ++ all)
  later h es fs all e l =
      rw (e, ← append_assoc h es fs)
        (record { vmid = l.vmid; made = l.made; stored = Any-right _ es fs l.stored })

  -- Where reconcileCreate of a claim without a providerID returns no error, it has stored the
  -- claim's status, with success, with the id of a VM that is there when it returns: the wait for
  -- its clone has ended with success, and it was not deleted since. The backend is that of Proxmox,
  -- and the handles that go-proxmox returns name what was asked for.
  pub reconcile_create-IsLaunched :
      (r : XenonNodeClaimReconciler) (h : History) (b : CtrlResult)
      → (reconcile_create ext r claim (proxmox_provider ext spec creds) spec h).0 ≡ ok b
      → IsLaunched ext
          (new_backend spec creds)
          (reconcile_create ext r claim (proxmox_provider ext spec creds) spec h).1
          (h ++ (reconcile_create ext r claim (proxmox_provider ext spec creds) spec h).1)
  unfolding reconcile_create
  reconcile_create-IsLaunched r h b q =
      let (u, _, q', all) =
        ok-bind (attempt (render_cloud_init ext r claim spec))
          (with_user_data ext claim (proxmox_provider ext spec creds)) h b q in
      later h _ _ _ all (with_user_data-IsLaunched u _ b q')
