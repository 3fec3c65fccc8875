-- ===== src/Claim/Recording.antt =====
-- What `reconcileCreate` writes down of a call of `Create`.
use xenonite.Base.{String, ◌≡◌, ◌≢◌, refl, eq_iff, Option, none, some, List, [], ◌∷◌, ◌++◌, arith}
use xenonite.Api.Core.{Error, text, condition_true}
use xenonite.Api.NodeClaim.{XenonNodeClaim}
use xenonite.Exec.{Call, Event, called, History, ok, External, request, ◌>>=◌}
use xenonite.Provider.{Provider}
use xenonite.Claim.Objects.{record_id, create_request}
use xenonite.Claim.Methods.{with_user_data, after_create, set_condition}

-- The calls `es` are followed by one write of the claim's status, with this providerID.
pub record IsRecorded (ext : External) (id : String) (h : History) (es all' : List Event)
    : Type 0 where
  pub written : XenonNodeClaim
  pub id_kept : written.status.provider_id ≡ id
  pub then_written :
      all'
      ≡ es
        ++ called
            (Call.update_claim_status written)
            (ext.answer (h ++ es) (Call.update_claim_status written))
          ∷ []

pub provider_id-record_id :
    (id : String) (claim : XenonNodeClaim)
    → id ≢ ""
    → claim.status.provider_id ≡ ""
    → (record_id id claim).status.provider_id ≡ id
unfolding record_id
provider_id-record_id id claim some_id fresh =
    ground (arith, eq_iff id "", eq_iff claim.status.provider_id "")

module _ (ext : External) (claim : XenonNodeClaim) (id : String) (some_id : id ≢ "")
    (fresh : claim.status.provider_id ≡ "") where
  after_create-IsRecorded :
      (e : Option Error) (h : History) (es : List Event)
      → IsRecorded ext id h es (es ++ (after_create ext (record_id id claim) e (h ++ es)).1)
  unfolding after_create set_condition ◌>>=◌ request
  after_create-IsRecorded (some e) h es = record {
    written = _;
    id_kept = provider_id-record_id id claim some_id fresh;
    then_written = refl;
  }
  after_create-IsRecorded none h es = record {
    written =
        set_condition ext (record_id id claim) "Launched" condition_true "Created"
          (text "backing machine created");
    id_kept = provider_id-record_id id claim some_id fresh;
    then_written = ground arith;
  }

  -- Where `Create` returns an id, with or without an error, for a claim with no providerID, the
  -- next call and the last is a write of the claim's status with that id.
  pub with_user_data-IsRecorded :
      (prov : Provider) (user_data : String) (h : History) (e : Option Error) (es : List Event)
      → prov.create (create_request claim user_data) h ≡ (ok (id, e), es)
      → IsRecorded ext id h es (with_user_data ext claim prov (ok user_data) h).1
  unfolding with_user_data ◌>>=◌
  with_user_data-IsRecorded prov user_data h e es q = rw q (after_create-IsRecorded e h es)
