-- ===== src/Proxmox/Configure.antt =====
-- The options that `configure` sends.
use xenonite.Base.{String, ◌≡◌, Bool, true, false, ◌==◌, List, [], ◌∷◌, if◌then◌else◌}
use xenonite.Api.Core.{Arg, str, int}
use xenonite.Exec.{VmOption}
use xenonite.Provider.{CreateRequest}
use xenonite.Go.Strings.{join}
use xenonite.Proxmox.{is_positive, has_tags, configure_options}

-- The values that are sent under a name.
abbrev pub values_of : String → List VmOption → List Arg
values_of name [] = []
values_of name (o ∷ opts) =
    if o.name == name then o.value ∷ values_of name opts else values_of name opts

abbrev pub once_if : Bool → Arg → List Arg
once_if true value = value ∷ []
once_if false value = []

-- What the request and the tags ask to be set under each name.
abbrev pub wanted : List String → CreateRequest → String → List Arg
wanted tags req name =
    if name == "cores"
    then once_if (is_positive req.cores) (int req.cores)
    else if name == "memory"
    then once_if (is_positive req.memory_mb) (int req.memory_mb)
    else if name == "disk"
    then once_if (is_positive req.disk_gb) (int req.disk_gb)
    else if name == "tags"
    then once_if (has_tags tags) (str (join tags ";"))
    else []

module _ (tags : List String) (req : CreateRequest) where
  -- The statement below, at one name.
  abbrev SendsWanted : String → Type 0
  SendsWanted name = values_of name (configure_options tags req) ≡ wanted tags req name
