-- ===== src/Controller/Monitor/Progress.antt =====
-- The order in which one reconcile sends its requests, and the objects that it has applied.
use mathlib.Core.List.{append_assoc, append-nil}
use mathlib.Core.Path.{subst}
use pgpilot_operator.Base.{
  ℕ, suc, ◌≤◌, String, ◌≡◌, refl, sym, ◌∙◌, ap, false, List, [], ◌∷◌, ◌++◌, arith, ◌==◌, string_eq,
  if◌then◌else◌,
}
use pgpilot_operator.Api.Monitor.{PgpilotMonitor}
use pgpilot_operator.Controller.Cluster.{
  Object, config_map_object, deployment_object, service_object, service_monitor_object,
}
use pgpilot_operator.Controller.Session.{
  EventType, Request, update_request, apply_request, status_request, library_status_request,
  event_request,
}

abbrev pub object_rank : Object → ℕ
object_rank (config_map_object o) = 1
object_rank (deployment_object o) = 3
object_rank (service_object o) = 4
object_rank (service_monitor_object o) = 5

-- The place of a request in a reconcile: the monitor itself, the ConfigMap and its event, the
-- Deployment, the Service, the ServiceMonitor, any other event, and the status.
abbrev pub rank : Request → ℕ
rank (update_request m) = 0
rank (apply_request o) = object_rank o
rank (event_request about kind reason message) = if reason == "ConfigMapUpdated" then 2 else 6
rank (status_request m) = 7
rank (library_status_request l) = 8

-- Every request is sent once, but for the status, which is retried.
abbrev pub next_rank : Request → ℕ
next_rank (status_request m) = 7
next_rank r = suc (rank r)

abbrev pub IsOrdered : ℕ → List Request → Type 0
IsOrdered k [] = Unit
IsOrdered k (r ∷ rs) = (k ≤ rank r) × IsOrdered (next_rank r) rs

abbrev rank_after : ℕ → List Request → ℕ
rank_after k [] = k
rank_after k (r ∷ rs) = rank_after (next_rank r) rs

abbrev applied_by : Request → List Object → List Object
applied_by (apply_request o) rest = o ∷ rest
applied_by (update_request m) rest = rest
applied_by (status_request m) rest = rest
applied_by (library_status_request l) rest = rest
applied_by (event_request about kind reason message) rest = rest

-- The objects that the requests apply, in order.
abbrev pub applied : List Request → List Object
applied [] = []
applied (r ∷ rs) = applied_by r (applied rs)

IsOrdered-snoc :
    (k : ℕ) (rs : List Request) (r : Request)
    → IsOrdered k rs
    → rank_after k rs ≤ rank r
    → IsOrdered k (rs ++ r ∷ [])
IsOrdered-snoc k [] r h le = (le, tt)
IsOrdered-snoc k (q ∷ rs) r h le = (h.0, IsOrdered-snoc (next_rank q) rs r h.1 le)

rank_after-snoc :
    (k : ℕ) (rs : List Request) (r : Request) → rank_after k (rs ++ r ∷ []) ≡ next_rank r
rank_after-snoc k [] r = refl
rank_after-snoc k (q ∷ rs) r = rank_after-snoc (next_rank q) rs r

applied-append : (rs qs : List Request) → applied (rs ++ qs) ≡ applied rs ++ applied qs
applied-append [] qs = refl
applied-append (update_request m ∷ rs) qs = applied-append rs qs
applied-append (apply_request o ∷ rs) qs = ap (λ os. o ∷ os) (applied-append rs qs)
applied-append (status_request m ∷ rs) qs = applied-append rs qs
applied-append (library_status_request l ∷ rs) qs = applied-append rs qs
applied-append (event_request about kind reason message ∷ rs) qs = applied-append rs qs

-- From the requests `before`, the reconcile has sent a trace in order, of ranks below `k` or the
-- retried status, that applies the objects `os`.
pub record Progress (before : List Request) (os : List Object) (k : ℕ) (now : List Request)
    : Type 0 where
  pub trace : List Request
  pub split : now ≡ before ++ trace
  pub applies : applied trace ≡ os
  pub ordered : IsOrdered 0 trace
  bound : rank_after 0 trace ≤ k

pub Progress-start : (before : List Request) → Progress before [] 0 before
Progress-start before = record {
  trace = [];
  split = sym (append-nil before);
  applies = refl;
  ordered = tt;
  bound = omega arith;
}

pub Progress-later :
    {before : List Request} {os : List Object} (j k : ℕ) {now : List Request}
    → j ≤ k
    → Progress before os j now
    → Progress before os k now
Progress-later j k le p = record {
  trace = p.trace;
  split = p.split;
  applies = p.applies;
  ordered = p.ordered;
  bound = omega (arith, p.bound);
}

pub Progress-send :
    {before : List Request} {os : List Object} (k : ℕ) {now : List Request} (r : Request)
    → k ≤ rank r
    → Progress before os k now
    → Progress before (os ++ applied (r ∷ [])) (next_rank r) (now ++ r ∷ [])
Progress-send {before} k r le p = record {
  trace = p.trace ++ r ∷ [];
  split = ap (λ l. l ++ r ∷ []) p.split ∙ append_assoc before p.trace (r ∷ []);
  applies = applied-append p.trace (r ∷ []) ∙ ap (λ l. l ++ applied (r ∷ [])) p.applies;
  ordered = IsOrdered-snoc 0 p.trace r p.ordered (omega (arith, p.bound));
  bound = rw rank_after-snoc (omega arith);
}

-- A request that applies nothing.
pub Progress-note :
    {before : List Request} {os : List Object} (k : ℕ) {now : List Request} (r : Request)
    → k ≤ rank r
    → applied (r ∷ []) ≡ []
    → Progress before os k now
    → Progress before os (next_rank r) (now ++ r ∷ [])
Progress-note {before} {os} k {now} r le nothing p =
    subst (λ qs. Progress before qs (next_rank r) (now ++ r ∷ []))
      (ap (λ qs. os ++ qs) nothing ∙ append-nil os) (Progress-send k r le p)

pub Progress-config_event :
    {before : List Request} {os : List Object} {now : List Request} (about : PgpilotMonitor)
    (kind : EventType) (message : String)
    → Progress before os 2 now
    → Progress before os 3 (now ++ event_request about kind "ConfigMapUpdated" message ∷ [])
unfolding string_eq
Progress-config_event about kind message p =
    Progress-note 2 (event_request about kind "ConfigMapUpdated" message) (omega arith) refl p

-- Any other event.
pub Progress-event :
    {before : List Request} {os : List Object} (k : ℕ) {now : List Request} (about : PgpilotMonitor)
    (kind : EventType) (reason message : String)
    → k ≤ 6
    → (reason == "ConfigMapUpdated") ≡ false
    → Progress before os k now
    → Progress before os 7 (now ++ event_request about kind reason message ∷ [])
Progress-event k about kind reason message le other p =
    let r = event_request about kind reason message in
    let six : rank r ≡ 6 = rw other in
    Progress-later _ 7 (omega (arith, six)) (Progress-note k r (omega (arith, six)) refl p)
