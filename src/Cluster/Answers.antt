-- ===== src/Cluster/Answers.antt =====
-- What a claim is that the API server returns.
use xenonite.Base.{String, ◌≡◌, sym, ap, ◌∙◌, [], ◌∷◌, ◌++◌, inl, inr}
use xenonite.Api.NodeClaim.{XenonNodeClaim}
use xenonite.Exec.{Call, Event, called, Result, ok, err, History, External, request}
use xenonite.Exec.Emits.{Allowed}
use xenonite.Exec.Failures.{Result-cases}
use xenonite.Exec.Triple.{Triple}
use xenonite.Cluster.Ledger.{ledger, ledger-neutral, IsNeutral}
use xenonite.Cluster.Server.{IsFaithful, Once, InHand, Once-stable}

-- The API server returned the claim, or an error.
abbrev pub Returned : String → Result XenonNodeClaim → History → Type 0
Returned w (ok c) h = InHand w c h
Returned w (err e) h = Once w h

module _ (ext : External) (faithful : IsFaithful ext) (w : String) where
  answered :
      (c : XenonNodeClaim) (h : History) (e : Event)
      → Allowed IsNeutral e
      → c.status.provider_id ≡ (ledger c.metadata.name h).recorded
      → Once w h
      → InHand w c (h ++ e ∷ [])
  answered c h e quiet stored o = record {
    once = Once-stable w h (e ∷ []) (quiet, tt) o;
    same = λ own.
        stored
        ∙ ap (λ n. (ledger n h).recorded) own
        ∙ ap (λ l. l.recorded) (sym (ledger-neutral w h (e ∷ []) o.0 (quiet, tt)));
  }

  pub update-Returned :
      (sent : XenonNodeClaim)
      → Triple (λ h. Once w h) (request ext (Call.update_claim sent)) (Returned w)
  unfolding request
  update-Returned sent = record {
    at = λ h o. elim (Result-cases (ext.answer h (Call.update_claim sent))) [
      | inl (c, e) ↦
          rw e (
            answered c h (called (Call.update_claim sent) (ok c)) tt (faithful.updates h sent c e)
              o)
      | inr (f, e) ↦
          rw e (Once-stable w h (called (Call.update_claim sent) (err f) ∷ []) (tt, tt) o)
    ];
  }

  pub get-Returned :
      (name : String) → Triple (λ h. Once w h) (request ext (Call.get_claim name)) (Returned w)
  unfolding request
  get-Returned name = record {
    at = λ h o. elim (Result-cases (ext.answer h (Call.get_claim name))) [
      | inl (c, e) ↦
          rw e (answered c h (called (Call.get_claim name) (ok c)) tt (faithful.reads h name c e) o)
      | inr (f, e) ↦ rw e (Once-stable w h (called (Call.get_claim name) (err f) ∷ []) (tt, tt) o)
    ];
  }
