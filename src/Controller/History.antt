-- ===== src/Controller/History.antt =====
-- Both reconcilers at work on one API server, in any order, with other clients acting in between.
pub mod Justified
use pgpilot_operator.Base.{Bool, []}
use pgpilot_operator.Kube.Meta.{NamespacedName}
use pgpilot_operator.Builder.Library.{Library}
use pgpilot_operator.Controller.Cluster.{Cluster}
use pgpilot_operator.Controller.Session.{Session}
use pgpilot_operator.Controller.Monitor.{reconcile}
use pgpilot_operator.Controller.MetricLibrary.{reconcile as reconcile_library}
use pgpilot_operator.Controller.Watch.{WatchedObject, library_to_monitors}

module _ (C : Cluster) (lib : Library) (enabled : Bool) where
  -- One step: other clients act, or a handler of the manager runs, whatever it returns.
  pub data Step (s : Session C) : Session C → Type 0 where
    others_act : (w : C.World) → Step s (record s { world = w })
    monitor_run : (req : NamespacedName) → Step s (reconcile C lib enabled req s).1
    library_run : (req : NamespacedName) → Step s (reconcile_library C req s).1
    watch_run : (obj : WatchedObject) → Step s (library_to_monitors C obj s).1

  -- The sessions that the manager reaches after its start.
  pub data Reach : Session C → Type 0 where
    started : (w : C.World) → Reach (record { world = w; requests = [] })
    later : {s t : Session C} → Reach s → Step s t → Reach t
