-- ===== src/Provider.antt =====
-- internal/provider/provider.go: what every infrastructure backend implements.
use xenonite.Base.{String, Option}
use xenonite.Base.Int.{ℤ}
use xenonite.Api.Core.{Error}
use xenonite.Exec.{Exec}

pub record CreateRequest : Type 0 where
  pub name : String
  pub cores : ℤ
  pub memory_mb : ℤ
  pub disk_gb : ℤ
  pub cloud_init_user_data : String

pub record Instance : Type 0 where
  pub provider_id : String
  pub status : String

-- `create` returns an id beside its error: the id of what a failed call may have left behind.
pub record Provider : Type 0 where
  pub create : CreateRequest → Exec (String × Option Error)
  pub delete : String → Exec (Unit {0})
  pub get : String → Exec (Option Instance)
