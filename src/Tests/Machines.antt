-- ===== src/Tests/Machines.antt =====
-- The Proxmox backend on a small cluster.
use xenonite.Base.{◌≡◌, refl, none, true, false, some, [], ◌∷◌, ◌⊎◌, Any, arith}
use xenonite.Base.Int.{ℤ, pos}
use xenonite.Provider.{CreateRequest}
use xenonite.Exec.{ok, called, History, Call, External, request, ◌>>=◌}
use xenonite.Go.Strings.Laws.{NoSlash}
use xenonite.Go.Strconv.Laws.{IsInt64}
use xenonite.Proxmox.{
  ProxmoxBackend, new_backend, target_node, create_machine, delete_machine, get_machine,
  configure_options,
}
use xenonite.Proxmox.ProviderId.{new_provider_id, parse_provider_id}
use xenonite.Proxmox.ProviderId.RoundTrip.{IsIdOf, parse-IsIdOf}
use xenonite.Proxmox.Create.{ClonesTo, parse-create_machine}
use xenonite.Proxmox.Purge.{Misses, IsPurged, delete_machine-Purges}
use xenonite.Proxmox.Delete.{on, StopsFirst, delete_machine_of_get-none, delete_machine-StopsFirst}
use xenonite.Api.Core.{foreign, wrapf, str}
use xenonite.Exec.Failures.{Fails}
use xenonite.Proxmox.Failures.{create_machine-Fails}
use xenonite.Tests.World.{world, provider_spec, credentials, new_machine}

abbrev ext : External
ext =
    world
      (record { claim = new_machine; pool_found = true; proxmox_up = true; pods = []; claims = [] })

abbrev pub backend : ProxmoxBackend
backend = new_backend provider_spec credentials

abbrev pub req : CreateRequest
req = record {
  name = "gpu-1";
  cores = pos 4;
  memory_mb = pos 1907;
  disk_gb = pos 0;
  cloud_init_user_data = "#cloud-config";
}

id_of_101 : new_provider_id "pve1" (pos 101) ≡ "proxmox://pve1/101"
unfolding new_provider_id
id_of_101 = refl

created : (create_machine ext backend req []).0 ≡ ok ("proxmox://pve1/101", none)
unfolding create_machine ◌>>=◌ request target_node new_backend configure_options new_provider_id
created = refl

pub parsed : parse_provider_id "proxmox://pve1/101" ≡ ok ("pve1", pos 101)
unfolding parse_provider_id
parsed = refl

pub plain : NoSlash "pve1"
plain = (omega arith, (omega arith, (omega arith, (omega arith, tt))))

parse-IsIdOf_example : IsIdOf "proxmox://pve1/101" "pve1" (pos 101)
parse-IsIdOf_example = parse-IsIdOf "proxmox://pve1/101" "pve1" (pos 101) parsed

target : target_node backend ≡ "pve1"
unfolding target_node new_backend
target = refl

small :
    (n : ℤ)
    → Any (ClonesTo (target_node backend) n) (create_machine ext backend req []).1
    → IsInt64 n
unfolding create_machine ◌>>=◌ request target_node new_backend configure_options new_provider_id
small n c = ground arith

parse-create_machine_example :
    (n : ℤ) × (parse_provider_id "proxmox://pve1/101" ≡ ok (target_node backend, n))
    × Any (ClonesTo (target_node backend) n) (create_machine ext backend req []).1
unfolding target_node new_backend
parse-create_machine_example =
    parse-create_machine ext backend req [] "proxmox://pve1/101" none (λ e. cc) plain small created
      (λ e. cc)

-- A VM was deleted before.
abbrev later : History
later =
    called
      (Call.pve_delete
        (record {
          node = record { client = backend.client; name = "pve1" };
          vmid = pos 101;
          status = "stopped";
        })
        (record { purge = true; destroy_unreferenced_disks = true }))
      (ok (record { upid = "delete" }))
    ∷ []

gone : (get_machine ext backend "proxmox://pve1/101" later).0 ≡ ok none
unfolding get_machine ◌>>=◌ request new_backend parse_provider_id
gone = refl

delete_machine_of_get-none_example :
    delete_machine ext backend "proxmox://pve1/101" later
    ≡ (ok tt, (get_machine ext backend "proxmox://pve1/101" later).1)
delete_machine_of_get-none_example =
    delete_machine_of_get-none ext backend "proxmox://pve1/101" later gone

delete_machine-StopsFirst_example :
    StopsFirst on (delete_machine ext backend "proxmox://pve1/101" []).1
delete_machine-StopsFirst_example = delete_machine-StopsFirst ext backend "proxmox://pve1/101" []

-- Proxmox does not answer.
abbrev down : External
down =
    world (record {
      claim = new_machine;
      pool_found = true;
      proxmox_up = false;
      pods = [];
      claims = [];
    })

not_created :
    (create_machine down backend req []).0
    ≡ ok ("", some (wrapf "get template node %q" (str "pve0" ∷ []) (foreign "unreachable")))
unfolding create_machine ◌>>=◌ request new_backend
not_created = refl

create_machine-Fails_example : Any Fails (create_machine down backend req []).1
create_machine-Fails_example =
    create_machine-Fails down backend req [] ""
      (wrapf "get template node %q" (str "pve0" ∷ []) (foreign "unreachable")) not_created

purged : (delete_machine ext backend "proxmox://pve1/101" []).0 ≡ ok tt
unfolding delete_machine ◌>>=◌ request parse_provider_id
purged = refl

delete_machine-Purges_example :
    Any (Misses ext "pve1" (pos 101)) (delete_machine ext backend "proxmox://pve1/101" []).1
    ⊎ IsPurged "pve1" (pos 101) (delete_machine ext backend "proxmox://pve1/101" []).1
delete_machine-Purges_example =
    delete_machine-Purges ext backend "pve1" (pos 101) "proxmox://pve1/101" parsed [] purged
