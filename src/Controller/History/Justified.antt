-- ===== src/Controller/History/Justified.antt =====
-- What the manager has sent, at any time.
use pgpilot_operator.Base.{String, Bool, [], ◌∷◌, ◌⊎◌}
use pgpilot_operator.Kube.Meta.{NamespacedName}
use pgpilot_operator.Builder.Library.{Library}
use pgpilot_operator.Controller.Cluster.{Cluster}
use pgpilot_operator.Controller.Session.{Session, Request}
use pgpilot_operator.Controller.Monitor.{reconcile}
use pgpilot_operator.Controller.Monitor.Statuses.Account.{Told}
use pgpilot_operator.Controller.MetricLibrary.{reconcile as reconcile_library}
use pgpilot_operator.Controller.MetricLibrary.Published.{Published}

module _ (C : Cluster) (lib : Library) (enabled : Bool) where
  -- Why a request was sent: by the monitor controller for a request of its queue, or by the library
  -- controller as the one write of a library that it has read.
  abbrev pub Justified : Request → Type 0
  Justified r =
      ((req : NamespacedName) × Told C lib enabled req r)
      ⊎ ((req : NamespacedName) × Published C req [] (r ∷ []))
