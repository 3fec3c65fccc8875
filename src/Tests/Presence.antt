-- ===== src/Tests/Presence.antt =====
-- A Proxmox whose lookups follow its VMs: a machine is made, found, deleted and missed.
use xenonite.Base.{
  ◌≡◌, ◌≢◌, refl, subst, sym, none, Bool, true, false, [], ◌∷◌, ◌++◌, Any, arith, ◌⊎◌, String,
}
use xenonite.Base.Int.{ℤ, pos}
use xenonite.Api.Core.{Error, CtrlResult, foreign}
use xenonite.Exec.{
  called, Result, ok, err, History, Call, Reply, External, PveNode, PveVm, request, ◌>>=◌,
}
use xenonite.Go.Strconv.Laws.{IsInt64}
use xenonite.Proxmox.{
  proxmox_provider, target_node, new_backend, configure_options, create_machine, delete_machine,
  get_machine,
}
use xenonite.Proxmox.ProviderId.{new_provider_id, parse_provider_id}
use xenonite.Proxmox.Create.{ClonesTo}
use xenonite.Proxmox.Machines.{Machine, Presence, presence, Sight}
use xenonite.Proxmox.Machines.Laws.{NamesHandles, KeepsMachines}
use xenonite.Proxmox.Presence.{Made}
use xenonite.Proxmox.Presence.RoundTrip.{create_machine-get_machine}
use xenonite.Claim.Reconcile.{
  XenonNodeClaimReconciler, factory, resolve_provider, read_secret_key, render_cloud_init,
  reconcile_create, reconcile_delete,
}
use xenonite.Claim.Release.{Releases}
use xenonite.Claim.Clean.{IsSighted, reconcile_delete-IsSighted}
use xenonite.Claim.Objects.{done, poll, create_request, requested_size}
use xenonite.Claim.Methods.{release_if_gone, with_user_data}
use xenonite.Claim.Launched.{IsLaunched, reconcile_create-IsLaunched}
use xenonite.Base.Int.{quot}
use xenonite.Base.Dict.{lookup}
use xenonite.Claim.Ends.{Breaks, Remains, reconcile_delete-Ends}
use xenonite.Exec.Laws.{HasFinalizerLaws}
use xenonite.Tests.World.{
  credentials, provider_spec, Scene, world, answer, new_machine, leaving, world-HasFinalizerLaws,
}
use xenonite.Tests.Machines.{backend, req, plain, parsed}

abbrev scene : Scene
scene = record { claim = new_machine; pool_found = true; proxmox_up = true; pods = []; claims = [] }

-- Whether a VM was deleted.
abbrev was_deleted : History → Bool
was_deleted [] = false
was_deleted (called (Call.pve_delete _ _) (ok _) ∷ h) = true
was_deleted (_ ∷ h) = was_deleted h

abbrev shown : Presence → Bool → PveNode → ℤ → Result PveVm
shown Presence.unknown true node vmid = err (foreign "not found")
shown _ _ node vmid = ok (record { node = node; vmid = vmid; status = "running" })

abbrev asked : PveNode → ℤ → Machine
asked node vmid = record { endpoint = node.client.endpoint; node = node.name; vmid = vmid }

abbrev kept_answer : History → (c : Call) → Result (Reply c)
kept_answer h (Call.pve_node client name) = ok (record { client = client; name = name })
kept_answer h (Call.pve_vm node vmid) =
    shown (presence (asked node vmid) h) (was_deleted h) node vmid
kept_answer h c = answer scene h c

abbrev kept : External
kept = record (world scene) { answer = kept_answer }

shown-vm :
    (s : Presence) (gone : Bool) (node : PveNode) (vmid : ℤ) (vm : PveVm)
    → shown s gone node vmid ≡ ok vm
    → (vm.node ≡ node) × (vm.vmid ≡ vmid)
shown-vm s gone node vmid vm e = ground arith

-- The machine that is asked for is the one that is known.
known :
    (m : Machine) (h : History) (endpoint : String) (s : Presence)
    → presence m h ≡ s
    → endpoint ≡ m.endpoint
    → presence (record { endpoint = endpoint; node = m.node; vmid = m.vmid }) h ≡ s
known m h endpoint s here same =
    subst (λ e. presence (record { endpoint = e; node = m.node; vmid = m.vmid }) h ≡ s) (sym same)
      here

kept-NamesHandles : NamesHandles kept
kept-NamesHandles = record {
  node_asked = λ h client name node e. cc;
  vm_asked = λ h node vmid vm e. shown-vm _ _ node vmid vm e;
}

kept-KeepsMachines : KeepsMachines kept
kept-KeepsMachines = record {
  names = kept-NamesHandles;
  node_stays = λ m h client e here same q. absurd (ground arith);
  vm_stays = λ m h client e here same q.
      let q' = rw (known m h client.endpoint Presence.present here same) at q in cc;
}

made : (create_machine kept backend req []).0 ≡ ok ("proxmox://pve1/101", none)
unfolding create_machine ◌>>=◌ request target_node new_backend configure_options new_provider_id
made = refl

small :
    (n : ℤ)
    → Any (ClonesTo (target_node backend) n) (create_machine kept backend req []).1
    → IsInt64 n
unfolding create_machine ◌>>=◌ request target_node new_backend configure_options new_provider_id
small n c = ground arith

create_machine-get_machine_example :
    (n : ℤ) × (parse_provider_id "proxmox://pve1/101" ≡ ok (target_node backend, n))
    × Made backend (target_node backend) n ([] ++ (create_machine kept backend req []).1)
    × ((g : History)
        → Made backend (target_node backend) n g
        → (get_machine kept backend "proxmox://pve1/101" g).0 ≢ ok none)
unfolding target_node new_backend
create_machine-get_machine_example =
    create_machine-get_machine kept kept-KeepsMachines backend req [] "proxmox://pve1/101" (λ e. cc)
      plain small made

abbrev reconciler : XenonNodeClaimReconciler
reconciler = record { new_provider = none; system_namespace = "xenonite-system" }

kept-HasFinalizerLaws : HasFinalizerLaws kept
kept-HasFinalizerLaws =
    let l = world-HasFinalizerLaws scene in
    record {
      contains-add = l.contains-add;
      changed-add = l.changed-add;
      contains-remove = l.contains-remove;
      changed-remove = l.changed-remove;
    }

reconcile_delete-Ends_example :
    ((b : CtrlResult) × ((reconcile_delete kept reconciler leaving []).0 ≡ ok b)
      × Any (Releases kept) (reconcile_delete kept reconciler leaving []).1
      × IsSighted kept leaving Sight.missing "pve1"
          (pos 101)
          []
          ([] ++ (reconcile_delete kept reconciler leaving []).1))
    ⊎ Any (Breaks kept) (reconcile_delete kept reconciler leaving []).1
    ⊎ ((e : Error) × ((reconcile_delete kept reconciler leaving []).0 ≡ err e)
        × Remains kept leaving "pve1"
            (pos 101)
            []
            e
            ([] ++ (reconcile_delete kept reconciler leaving []).1))
reconcile_delete-Ends_example =
    reconcile_delete-Ends kept reconciler leaving kept-NamesHandles "pve1" (pos 101) parsed
      kept-HasFinalizerLaws refl refl (λ e. cc) []

finished : (reconcile_delete kept reconciler leaving []).0 ≡ ok done
unfolding reconcile_delete ◌>>=◌ request resolve_provider factory delete_machine get_machine
    new_backend parse_provider_id release_if_gone
finished = refl

reconcile_delete-IsSighted_example :
    Any (Releases kept) (reconcile_delete kept reconciler leaving []).1
    × IsSighted kept leaving Sight.missing "pve1"
        (pos 101)
        []
        ([] ++ (reconcile_delete kept reconciler leaving []).1)
reconcile_delete-IsSighted_example =
    reconcile_delete-IsSighted kept reconciler leaving kept-NamesHandles "pve1" (pos 101) parsed
      kept-HasFinalizerLaws refl refl (λ e. cc) [] done finished

launched :
    (reconcile_create kept reconciler new_machine
      (proxmox_provider kept provider_spec credentials)
      provider_spec
      []).0
    ≡ ok poll
unfolding reconcile_create read_secret_key create_request requested_size with_user_data
    render_cloud_init create_machine configure_options new_provider_id target_node new_backend ◌>>=◌
    request lookup quot
launched = refl

reconcile_create-IsLaunched_example :
    IsLaunched kept backend
      (reconcile_create kept reconciler new_machine
        (proxmox_provider kept provider_spec credentials)
        provider_spec
        []).1
      ([]
        ++ (reconcile_create kept reconciler new_machine
            (proxmox_provider kept provider_spec credentials)
            provider_spec
            []).1)
reconcile_create-IsLaunched_example =
    reconcile_create-IsLaunched kept kept-NamesHandles provider_spec credentials new_machine refl
      reconciler [] poll launched
