-- ===== src/Claim/Sizes.antt =====
-- The units of `requestedSize`.
use xenonite.Base.{ℕ, ◌+◌, ◌*◌, ◌/◌, ◌≤◌, ◌<◌, ◌≡◌, some, arith}
use xenonite.Base.Int.{pos, quot}
use xenonite.Base.Dict.{lookup}
use xenonite.Api.NodeClaim.{XenonNodeClaim}
use xenonite.Claim.Objects.{requested_size}

-- For amounts of memory and storage that are not negative, the sizes are the whole MiB and GiB
-- that fit, and the cores are those asked for.
requested_size_fits :
    (claim : XenonNodeClaim) (cpu mem disk : ℕ)
    → lookup "cpu" claim.spec.resources ≡ some (pos cpu)
    → lookup "memory" claim.spec.resources ≡ some (pos mem)
    → lookup "storage" claim.spec.resources ≡ some (pos disk)
    → (mb : ℕ) × (gb : ℕ) × (requested_size claim ≡ (pos cpu, pos mb, pos gb))
      × (mb * 1048576 ≤ mem)
      × (mem < (mb + 1) * 1048576)
      × (gb * 1073741824 ≤ disk)
      × (disk < (gb + 1) * 1073741824)
unfolding requested_size quot
requested_size_fits claim cpu mem disk c m d = (
  mem / 1048576,
  disk / 1073741824,
  ground arith,
  omega arith,
  omega arith,
  omega arith,
  omega arith,
)
