-- ===== src/Controller/Monitor/Report/Trace.antt =====
-- What the status that ends a reconcile says, and what is sent with it.
use mathlib.Core.List.{append_assoc, append-nil}
use pgpilot_operator.Base.{
  String, ◌≡◌, ◌≢◌, sym, ◌∙◌, ap, Bool, true, false, some, List, [], ◌∷◌, ◌++◌, All, All-append,
  string_eq, if◌then◌else◌,
}
use pgpilot_operator.Kube.Meta.{NamespacedName, Condition, status_true, status_false}
use pgpilot_operator.Api.Monitor.{PgpilotMonitorStatus, PgpilotMonitor}
use pgpilot_operator.Controller.Cluster.{Cluster, find_condition}
use pgpilot_operator.Controller.Session.{
  Request, update_request, apply_request, status_request, library_status_request, EventType, normal,
  warning, event_request,
}
use pgpilot_operator.Controller.Triple.{Fetched}
use pgpilot_operator.Controller.Triple.Status.{own_key}

-- The status is about the monitor's generation, its `Ready` condition agrees with its flag, and all
-- other conditions are the monitor's.
pub record Reports (m : PgpilotMonitor) (ready : Bool) (status : PgpilotMonitorStatus)
    : Type 0 where
  pub flag : status.ready ≡ ready
  pub generation : status.observed_generation ≡ m.object_meta.generation
  pub same_hash : status.config_hash ≡ m.status.config_hash
  pub condition : Condition
  pub found : find_condition "Ready" status.conditions ≡ some condition
  pub truth : condition.status ≡ (if ready then status_true else status_false)
  pub reason : condition.reason ≡ (if ready then "PodRunning" else "PodNotReady")
  pub others :
      (t : String)
      → t ≢ "Ready"
      → find_condition t status.conditions ≡ find_condition t m.status.conditions

-- The event tells that the pod has become ready, or is no longer ready.
pub data Turned (was_ready ready : Bool) : EventType → String → Type 0 where
  turned_ready : was_ready ≡ false → ready ≡ true → Turned was_ready ready normal "PodRunning"
  turned_unready : was_ready ≡ true → ready ≡ false → Turned was_ready ready warning "PodNotReady"

-- Only the status differs from the monitor of that name as the API server answers it.
abbrev pub Carried : Cluster → NamespacedName → PgpilotMonitor → Type 0
Carried C key w =
    (latest : PgpilotMonitor) × Fetched (C.get_monitor key) latest
    × (w ≡ record latest { status = w.status })

-- A status that is written is the monitor's and reports so, and an event tells of a change.
abbrev pub Truthful : Cluster → PgpilotMonitor → Bool → Request → Type 0
Truthful C m ready (status_request w) = Reports m ready w.status × Carried C (own_key m) w
Truthful C m ready (update_request w) = ⊥
Truthful C m ready (apply_request o) = ⊥
Truthful C m ready (library_status_request l) = ⊥
Truthful C m ready (event_request about kind reason message) =
    Turned m.status.ready ready kind reason × (about.object_meta ≡ m.object_meta)

-- All that was sent after `before` is events and such statuses.
pub record Reported (C : Cluster) (before : List Request) (m : PgpilotMonitor) (ready : Bool)
    (now : List Request) : Type 0 where
  pub trace : List Request
  pub split : now ≡ before ++ trace
  pub truthful : All (Truthful C m ready) trace

pub Reported-start :
    (C : Cluster) (before : List Request) (m : PgpilotMonitor) (ready : Bool)
    → Reported C before m ready before
Reported-start C before m ready = record {
  trace = [];
  split = sym (append-nil before);
  truthful = tt;
}

pub Reported-send :
    {C : Cluster} {before : List Request} {m : PgpilotMonitor} {ready : Bool} {now : List Request}
    (r : Request)
    → Truthful C m ready r
    → Reported C before m ready now
    → Reported C before m ready (now ++ r ∷ [])
Reported-send {before = before} r p h = record {
  trace = h.trace ++ r ∷ [];
  split = ap (λ l. l ++ r ∷ []) h.split ∙ append_assoc before h.trace (r ∷ []);
  truthful = All-append _ h.trace (r ∷ []) h.truthful (p, tt);
}
