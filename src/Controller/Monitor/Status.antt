-- ===== src/Controller/Monitor/Status.antt =====
-- The steps that touch the monitor's own status, its events and its credentials, as triples.
use Prim.Native.String.{len}
use mathlib.Core.Path.{subst}
use pgpilot_operator.Kube.Meta.{NamespacedName}
use pgpilot_operator.Base.{
  Result, ok, err, [], ◌∷◌, ◌∙◌, ◌≤◌, String, ◌≡◌, refl, ◌≢◌, Bool, true, false, none, List, arith,
  ◌==◌, string_eq,
}
use pgpilot_operator.Base.Int.{is_positive}
use pgpilot_operator.Kube.Objects.{Deployment}
use pgpilot_operator.Api.Monitor.{PgpilotMonitorStatus, PgpilotMonitor}
use pgpilot_operator.Builder.Library.{Library}
use pgpilot_operator.Controller.Cluster.{Cluster, Object, IsLawful}
use pgpilot_operator.Controller.Session.{Request, status_request, normal, warning, or_panic}
use pgpilot_operator.Controller.Client.{set_condition, patch_status}
use pgpilot_operator.Controller.Triple.{
  Assertion, Triple, Triple-given, Triple-pure, Triple-if, Triple-bind, Triple-or_panic,
  Triple-send, Triple-call, Triple-fetch, Triple-attempt, Triple-in_context, Triple-clock,
}
use pgpilot_operator.Controller.Triple.Status.{
  KeptByStatus, Wrote, Wrote-kept, own_key, Triple-patch_status,
}
use pgpilot_operator.Controller.Monitor.{
  short_hash, first_pod, config_generated, report_ready, report_status,
}
use pgpilot_operator.Controller.Monitor.Progress.{
  Progress, Progress-note, Progress-later, Progress-config_event, Progress-event,
}
use pgpilot_operator.Controller.Monitor.Applied.{
  refused_status, refused_replicas, Partial, Partial-of,
}

-- The monitor with another status: what the controller's code changes of it in memory.
abbrev pub with_status : PgpilotMonitor → PgpilotMonitorStatus → PgpilotMonitor
with_status m status = record m { status = status }

pub KeptByStatus-Progress :
    (C : Cluster) (key : NamespacedName) (before : List Request) (os : List Object)
    (status : PgpilotMonitorStatus)
    → KeptByStatus C key status (Progress before os 7)
KeptByStatus-Progress C key before os status l latest f p =
    Progress-note 7 (status_request (record latest { status = status })) (omega arith) refl p

pub short_hash-ne-none : (hash : String) → 12 ≤ len hash → short_hash hash ≢ none
short_hash-ne-none hash h = ground arith

-- The name of the pod is of the status.
pub first_pod-own_key :
    (m : PgpilotMonitor) (pods : Result (List String)) → own_key (first_pod m pods) ≡ own_key m
first_pod-own_key m (ok (pod ∷ pods)) = refl
first_pod-own_key m (ok []) = refl
first_pod-own_key m (err e) = refl

module _ (C : Cluster) (lib : Library) (lawful : IsLawful C) (before : List Request)
    (os : List Object) where
  pub Triple-patched :
      (m : PgpilotMonitor)
      → Triple
          (Progress before os 7)
          (patch_status C m)
          (λ _. Wrote C (Progress before os 7) (own_key m) m.status)
          (Partial C lib before)
  Triple-patched m =
      Triple-patch_status lawful m (KeptByStatus-Progress C (own_key m) before os m.status)
        (λ e r l p. Partial-of C lib (refused_status m e r) 7 (omega arith) p)

  -- The monitor that comes back differs in its status alone.
  pub Triple-config_generated :
      (m : PgpilotMonitor) (name hash : String)
      → 12 ≤ len hash
      → Triple
          (Progress before os 2)
          (config_generated C lib m name hash)
          (λ m1 l. ((st : PgpilotMonitorStatus) × (m1 ≡ with_status m st)) × Progress before os 3 l)
          (Partial C lib before)
  unfolding config_generated set_condition string_eq
  Triple-config_generated m name hash long =
      Triple-bind {R = λ _. Progress before os 2} (or_panic (short_hash hash)) _
        (Triple-or_panic (short_hash hash) (short_hash-ne-none hash long) (λ a e l p. p))
        (λ short.
          Triple-if (m.status.config_hash == hash) _ _
            (λ same. Triple-pure _ (λ l p. ((_, refl), Progress-later 2 3 (omega arith) p)))
            (λ differ.
              Triple-bind {R = λ _. Progress before os 3} _ _
                (Triple-send _ (λ l p. Progress-config_event _ normal _ p))
                (λ _. Triple-pure _ (λ l p. ((_, refl), p)))))

  -- A report leaves all but the status alone, and sends one event at most.
  Triple-report_ready :
      (m : PgpilotMonitor) (was_ready ready : Bool)
      → Triple
          (Progress before os 6)
          (report_ready C lib m was_ready ready)
          (λ m1 l. (own_key m1 ≡ own_key m) × Progress before os 7 l)
          (Partial C lib before)
  unfolding report_ready string_eq set_condition
  Triple-report_ready m true true =
      Triple-pure _ (λ l p. (refl, Progress-later 6 7 (omega arith) p))
  Triple-report_ready m false true =
      Triple-bind {R = λ _. Progress before os 7} _ _
        (Triple-send _ (λ l p. Progress-event 6 _ normal _ _ (omega arith) refl p))
        (λ _. Triple-pure _ (λ l p. (refl, p)))
  Triple-report_ready m true false =
      Triple-bind {R = λ _. Progress before os 7} _ _
        (Triple-send _ (λ l p. Progress-event 6 _ warning _ _ (omega arith) refl p))
        (λ _. Triple-pure _ (λ l p. (refl, p)))
  Triple-report_ready m false false =
      Triple-pure _ (λ l p. (refl, Progress-later 6 7 (omega arith) p))

  -- Nothing more was applied, and the API server accepted the last status.
  abbrev pub Recorded : PgpilotMonitor → Assertion
  Recorded m now =
      Progress before os 8 now
      × ((st : PgpilotMonitorStatus) × Wrote C (Progress before os 7) (own_key m) st now)

  Wrote-Recorded :
      (m m1 : PgpilotMonitor) (pods : Result (List String)) (now : List Request)
      → own_key m1 ≡ own_key m
      → (let m2 = first_pod m1 pods in Wrote C (Progress before os 7) (own_key m2) m2.status now)
      → Recorded m now
  Wrote-Recorded m m1 pods now same wrote =
      let m2 = first_pod m1 pods in
      (
        Progress-later 7 8 (omega arith) (
            Wrote-kept lawful m2 (KeptByStatus-Progress C (own_key m2) before os m2.status) now
              wrote),
        (
          m2.status,
          subst (λ key. Wrote C (Progress before os 7) key m2.status now)
              (first_pod-own_key m1 pods ∙ same) wrote,
        ),
      )

  pub Triple-report_status :
      (m : PgpilotMonitor) (dep : Deployment)
      → Triple
          (Progress before os 6)
          (report_status C lib m dep)
          (λ _. Recorded m)
          (Partial C lib before)
  unfolding report_status
  Triple-report_status m dep =
      Triple-bind {R = λ _. Progress before os 6} _ _
        (Triple-fetch _ (λ a f l p. p)
          (λ e r l p. Partial-of C lib (refused_replicas _ e r) 6 (omega arith) p))
        (λ replicas. Triple-bind {R = λ _. Progress before os 6} _ _ Triple-clock (λ time.
          Triple-bind _ _ (Triple-report_ready _ m.status.ready (is_positive replicas)) (λ m1.
            Triple-given _ λ same.
              Triple-bind {R = λ _. Progress before os 7} _ _
                (Triple-attempt {F = Progress before os 7} _ (Triple-call _ (λ a l p. p) (λ l p. p))
                  (λ e l p. p))
                (λ pods.
                  Triple-bind _ _ (Triple-in_context _ _ (Triple-patched (first_pod m1 pods)))
                    (λ _. Triple-pure _ (λ l p. Wrote-Recorded m m1 pods l same p))))))
