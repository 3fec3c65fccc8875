-- ===== src/Tests/Idle.antt =====
-- A claim whose node stays empty, on the small cluster.
use xenonite.Base.{true, [], ◌∷◌}
use xenonite.Base.Int.{ℤ, pos}
use xenonite.Api.NodeClaim.{XenonNodeClaim}
use xenonite.Exec.{External, History, read_clock}
use xenonite.Tests.World.{world, new_machine}

-- Stamped at the beginning of 1970.
abbrev idle : XenonNodeClaim
idle = record new_machine {
  metadata = record new_machine.metadata {
    annotations = ("xenonite.io/empty-since", "1970-01-01T00:00:00Z") ∷ [];
  };
}

-- The time is the beginning of 1970, and a day later once anything has happened.
abbrev clock : History → ℤ
clock [] = pos 0
clock (_ ∷ _) = pos 86400000000000

-- Every time is written as the beginning of 1970.
abbrev early : External
early =
    record (world (record {
      claim = idle;
      pool_found = true;
      proxmox_up = true;
      pods = [];
      claims = idle ∷ [];
    })) { format_rfc3339 = λ t. "1970-01-01T00:00:00Z"; clock = clock }

-- The day after the stamp.
abbrev next_day : History
next_day = read_clock (pos 0) ∷ []
