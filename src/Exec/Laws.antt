-- ===== src/Exec/Laws.antt =====
-- The documented behaviour of the libraries that the theorems rely on.
use xenonite.Base.{String, List, ◌≡◌, true, false, not}
use xenonite.Exec.{External}

-- controllerutil: `AddFinalizer` adds one that is not there, `RemoveFinalizer` takes it away, and
-- each says whether it changed the list.
pub record HasFinalizerLaws (ext : External) : Type 0 where
  pub contains-add :
      (fs : List String) (f : String) → ext.contains_finalizer (ext.add_finalizer fs f).0 f ≡ true
  pub changed-add :
      (fs : List String) (f : String)
      → (ext.add_finalizer fs f).1 ≡ not (ext.contains_finalizer fs f)
  pub contains-remove :
      (fs : List String) (f : String)
      → ext.contains_finalizer (ext.remove_finalizer fs f).0 f ≡ false
  pub changed-remove :
      (fs : List String) (f : String) → (ext.remove_finalizer fs f).1 ≡ ext.contains_finalizer fs f
