-- ===== src/Proxmox/ProviderId.antt =====
-- The providerID codec of internal/provider/proxmox/proxmox.go: proxmox://<node>/<vmid>.
pub mod RoundTrip
use Prim.Native.String.{◌++◌ as ◌<>◌}
use xenonite.Base.{String, ◌==◌, ◌||◌, Option, none, some, [], ◌∷◌, if◌then◌else◌}
use xenonite.Base.Int.{ℤ}
use xenonite.Api.Core.{str, errorf, wrapf}
use xenonite.Exec.{Result, ok, err}
use xenonite.Go.Strings.{trim_prefix, cut_slash}
use xenonite.Go.Strconv.{print_int, atoi}

abbrev pub provider_id_scheme : String
provider_id_scheme = "proxmox://"

-- fmt.Sprintf("%s%s/%d", …)
unfoldable pub new_provider_id : String → ℤ → String
unfolding print_int
new_provider_id node vmid = provider_id_scheme <> (node <> ("/" <> print_int vmid))

parse_vmid : String → String → String → Option ℤ → Result (String × ℤ)
parse_vmid id node id_str (some vmid) = ok (node, vmid)
parse_vmid id node id_str none = err (
    wrapf "providerID %q has non-numeric vmid" (str id ∷ [])
      (errorf "strconv.Atoi: parsing %q" (str id_str ∷ [])))

malformed : String → Result (String × ℤ)
malformed id = err (
    errorf "providerID %q is malformed, want %s<node>/<vmid>"
      (str id ∷ str provider_id_scheme ∷ []))

parse_parts : String → Option (String × String) → Result (String × ℤ)
unfolding malformed parse_vmid
parse_parts id none = malformed id
parse_parts id (some (node, id_str)) =
    if node == "" || id_str == "" then malformed id else parse_vmid id node id_str (atoi id_str)

unfoldable pub parse_provider_id : String → Result (String × ℤ)
unfolding parse_parts trim_prefix cut_slash atoi
parse_provider_id id =
    let trimmed = trim_prefix id provider_id_scheme in
    if trimmed == id
    then err (errorf "providerID %q is not a proxmox id" (str id ∷ []))
    else parse_parts id (cut_slash trimmed)
