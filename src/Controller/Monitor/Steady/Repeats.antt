-- ===== src/Controller/Monitor/Steady/Repeats.antt =====
-- Any number of runs of `Reconcile` where nothing has changed.
use mathlib.Core.List.{append_assoc, append-nil}
use Prim.Native.String.{len}
use pgpilot_operator.Base.{◌≤◌, String, sym, ◌∙◌, ap, Bool, List, [], ◌++◌, All-append}
use pgpilot_operator.Kube.Meta.{NamespacedName}
use pgpilot_operator.Api.Monitor.{PgpilotMonitorStatus, PgpilotMonitor}
use pgpilot_operator.Builder.Library.{Library}
use pgpilot_operator.Controller.Cluster.{Cluster, IsLawful}
use pgpilot_operator.Controller.Session.{Session, Request, CtrlResult}
use pgpilot_operator.Controller.Triple.{Post-always}
use pgpilot_operator.Controller.Monitor.{reconcile}
use pgpilot_operator.Controller.Monitor.Statuses.{Observed}
use pgpilot_operator.Controller.Monitor.Steady.{Unchanged, Quiet, Unmoved}
use pgpilot_operator.Controller.Monitor.Steady.Runs.{reconcile-Unmoved}

module _ (C : Cluster) (lib : Library) (enabled : Bool) (req : NamespacedName) where
  -- The request is reconciled any number of times, and other clients act in between.
  pub data Repeats (s : Session C) : Session C → Type 0 where
    stays : Repeats s s
    others_act : {t : Session C} (w : C.World) → Repeats s t → Repeats s (record t { world = w })
    again : {t : Session C} → Repeats s t → Repeats s (reconcile C lib enabled req t).1

  module _ (m : PgpilotMonitor) (st : PgpilotMonitorStatus) (seen : Observed C lib m st) where
    Unmoved-start : (before : List Request) → Unmoved C lib enabled req m st seen before before
    Unmoved-start before = record { trace = []; split = sym (append-nil before); quiet = tt }

    Unmoved-then :
        (before between sent : List Request)
        → Unmoved C lib enabled req m st seen before between
        → Unmoved C lib enabled req m st seen between sent
        → Unmoved C lib enabled req m st seen before sent
    Unmoved-then before between sent p q = record {
      trace = p.trace ++ q.trace;
      split = q.split ∙ ap (λ l. l ++ q.trace) p.split ∙ append_assoc before p.trace q.trace;
      quiet = All-append (Quiet C lib enabled req m st seen) p.trace q.trace p.quiet q.quiet;
    }

    module _ (same : Unchanged C lib enabled req m st seen) (lawful : IsLawful C)
        (long : (x : String) → 12 ≤ len (lib.hex_digest x)) where
      again-Unmoved :
          (t : Session C)
          → Unmoved C lib enabled req m st seen t.requests
              (reconcile C lib enabled req t).1.requests
      again-Unmoved t =
          let (a, u) = reconcile C lib enabled req t in
          let quiet = Unmoved C lib enabled req m st seen t.requests u.requests in
          Post-always {A = CtrlResult} (λ _. Unmoved C lib enabled req m st seen t.requests)
            (Unmoved C lib enabled req m st seen t.requests) quiet a u.requests (λ _ h. h) (λ h. h)
            (reconcile-Unmoved C lib enabled req m st seen same lawful long t)

      -- Where nothing has changed, running `Reconcile` again, however often, repeats what is there.
      -- The status `st` is one that a run has written for `m` after it had applied the children.
      -- From then on the API server answers with `m` under `st` or under any other status with the
      -- same hash and flag `ready`, such as the later runs write, and with any version and managed
      -- fields; `m` is not being deleted and has its finalizer and credentials; the libraries and
      -- the ready replicas are those that the run had read, and the Secret and the libraries are
      -- not refused. Then all runs together, with other clients acting in between and with refused
      -- writes, send no event and no update of the monitor; what they apply are the children that
      -- the builders made before, with the monitor as their owner; and each status that they write
      -- has the same hash, the same flag `ready`, the same generation, and the same statuses and
      -- reasons in its three conditions. The times, the messages and the name of the pod in it are
      -- left open. The helpers of the client libraries behave as documented, and digests have
      -- twelve characters or more.
      pub Repeats-Unmoved :
          (s t : Session C)
          → Repeats s t
          → Unmoved C lib enabled req m st seen s.requests t.requests
      Repeats-Unmoved s _ stays = Unmoved-start s.requests
      Repeats-Unmoved s _ (others_act {t} w h) = Repeats-Unmoved s t h
      Repeats-Unmoved s _ (again {t} h) =
          Unmoved-then s.requests t.requests _ (Repeats-Unmoved s t h) (again-Unmoved t)
