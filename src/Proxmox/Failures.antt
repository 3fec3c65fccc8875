-- ===== src/Proxmox/Failures.antt =====
-- Where the backend's errors come from.
use xenonite.Base.{String, ◌≡◌, some, Any, arith}
use xenonite.Api.Core.{Error}
use xenonite.Provider.{CreateRequest}
use xenonite.Exec.{History, ok, err, External, request, ◌>>=◌}
use xenonite.Exec.Failures.{Fails}
use xenonite.Proxmox.ProviderId.{parse_provider_id}
use xenonite.Proxmox.{ProxmoxBackend, create_machine, delete_machine}

module _ (ext : External) (p : ProxmoxBackend) where
  -- `Create` returns an error only where one of the calls that it made failed.
  pub create_machine-Fails :
      (req : CreateRequest) (h : History) (id : String) (e : Error)
      → (create_machine ext p req h).0 ≡ ok (id, some e)
      → Any Fails (create_machine ext p req h).1
  unfolding create_machine ◌>>=◌ request
  create_machine-Fails req h id e q = ground arith

  -- For an id that is parsed, `Delete` returns an error only where one of its calls failed.
  delete_machine-Fails :
      (id node : String) (vmid : _) (h : History) (e : Error)
      → parse_provider_id id ≡ ok (node, vmid)
      → (delete_machine ext p id h).0 ≡ err e
      → Any Fails (delete_machine ext p id h).1
  unfolding delete_machine ◌>>=◌ request
  delete_machine-Fails id node vmid h e parsed q = ground arith
