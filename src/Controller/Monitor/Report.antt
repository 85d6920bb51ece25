-- ===== src/Controller/Monitor/Report.antt =====
-- The last step of a reconcile, which writes the status.
pub mod Trace
use mathlib.Core.Path.{subst}
use pgpilot_operator.Base.{
  ℕ, String, ◌≡◌, refl, sym, ◌∙◌, ◌⊎◌, inl, inr, Bool, true, false, Option, some, List, [], ◌∷◌,
  Error, Result, ok, err, string_eq, if◌then◌else◌,
}
use pgpilot_operator.Base.Int.{ℤ, is_positive}
use pgpilot_operator.Kube.Meta.{status_true, status_false}
use pgpilot_operator.Kube.Objects.{Deployment}
use pgpilot_operator.Api.Monitor.{PgpilotMonitorStatus, PgpilotMonitor}
use pgpilot_operator.Builder.Library.{Library}
use pgpilot_operator.Builder.Deployment.{selector_labels}
use pgpilot_operator.Controller.Cluster.{Cluster, IsLawful}
use pgpilot_operator.Controller.Session.{
  Session, Request, CtrlResult, no_requeue, pure, call, attempt, in_context, ◌>>=◌,
}
use pgpilot_operator.Controller.Client.{set_condition, patch_status}
use pgpilot_operator.Controller.Triple.{
  Assertion, Post, Fetched, Refused, Triple, Triple-pure, Triple-bind, Triple-given, Triple-call,
  Triple-fetch, Triple-send, Triple-clock, Triple-attempt, Triple-weaken, Triple-in_context,
}
use pgpilot_operator.Controller.Triple.Status.{
  KeptByStatus, Wrote, Wrote-kept, own_key, Triple-patch_status,
}
use pgpilot_operator.Controller.Monitor.Status.{first_pod-own_key}
use pgpilot_operator.Controller.Monitor.{first_pod, report_ready, report_status}
use pgpilot_operator.Controller.Checks.{requeue_in}
pub use pgpilot_operator.Controller.Monitor.Report.Trace.{
  Reports, Turned, turned_ready, turned_unready, Carried, Truthful, Reported, Reported-start,
  Reported-send,
}

module _ (C : Cluster) (before : List Request) (m : PgpilotMonitor) (dep : Deployment) where
  abbrev pub replicas_of : C.World → Result ℤ × C.World
  replicas_of =
      C.get_ready_replicas
        (record { name = dep.object_meta.name; namespace = dep.object_meta.namespace })

  -- The report of the replicas that the API server answered.
  abbrev pub ReportOf : ℤ → Assertion
  ReportOf replicas now =
      Fetched replicas_of replicas × Reported C before m (is_positive replicas) now

  -- What was sent ends with a status that reports so, which was written to the monitor as the API server
  -- answered it, and which the API server accepted.
  abbrev pub Recorded : Bool → Assertion
  Recorded ready now =
      (st : PgpilotMonitorStatus) × Reports m ready st
      × Wrote C (Reported C before m ready) (own_key m) st now

  -- The end of a run that returns, and of one that fails.
  abbrev pub Finished : CtrlResult → Assertion
  Finished result now =
      (replicas : ℤ) × (result ≡ (if is_positive replicas then no_requeue else requeue_in 15))
      × ReportOf replicas now
      × Recorded (is_positive replicas) now

  abbrev pub Unfinished : Assertion
  Unfinished now =
      (((e : Error) × Refused replicas_of e) × (now ≡ before))
      ⊎ ((replicas : ℤ) × ReportOf replicas now)

module _ (C : Cluster) (lib : Library) (lawful : IsLawful C) (before : List Request)
    (m : PgpilotMonitor) where
  -- The monitor before its `Ready` condition is set.
  abbrev observed : Option ℕ → Bool → PgpilotMonitor
  observed time ready = record m {
    status = record m.status {
      ready = ready;
      observed_generation = m.object_meta.generation;
      last_reconciled = time;
    };
  }

  set_condition-Reports :
      (time : Option ℕ) (ready : Bool) (message : String)
      → Reports m ready
          (set_condition C
            (observed time ready)
            "Ready"
            (if ready then status_true else status_false)
            (if ready then "PodRunning" else "PodNotReady")
            message).status
  unfolding set_condition
  set_condition-Reports time ready message =
      let (d, found, status, reason, _, _) = lawful.condition_self m.status.conditions _ in
      record {
        flag = refl;
        generation = refl;
        same_hash = refl;
        condition = d;
        found = found;
        truth = status;
        reason = reason;
        others = λ t differ. lawful.condition_other m.status.conditions _ t differ;
      }

  Triple-report_ready-Reports :
      {E : Assertion} (time : Option ℕ) (was_ready ready : Bool)
      → m.status.ready ≡ was_ready
      → Triple
          (Reported C before m ready)
          (report_ready C lib (observed time ready) was_ready ready)
          (λ m1 now.
            ((own_key m1 ≡ own_key m) × Reports m ready m1.status) × Reported C before m ready now)
          E
  unfolding report_ready set_condition
  Triple-report_ready-Reports time true true was =
      Triple-pure _ (λ now p. ((refl, set_condition-Reports time true _), p))
  Triple-report_ready-Reports time false true was =
      Triple-bind _ _
        (Triple-send _ {Q = λ _. Reported C before m true}
          (λ now p. Reported-send _ (turned_ready was refl, refl) p))
        (λ _. Triple-pure _ (λ now p. ((refl, set_condition-Reports time true _), p)))
  Triple-report_ready-Reports time true false was =
      Triple-bind _ _
        (Triple-send _ {Q = λ _. Reported C before m false}
          (λ now p. Reported-send _ (turned_unready was refl, refl) p))
        (λ _. Triple-pure _ (λ now p. ((refl, set_condition-Reports time false _), p)))
  Triple-report_ready-Reports time false false was =
      Triple-pure _ (λ now p. ((refl, set_condition-Reports time false _), p))

  first_pod-Reports :
      (ready : Bool) (m1 : PgpilotMonitor) (pods : Result (List String))
      → Reports m ready m1.status
      → Reports m ready (first_pod m1 pods).status
  first_pod-Reports ready m1 (ok (pod ∷ pods)) h = record {
    flag = h.flag;
    generation = h.generation;
    same_hash = h.same_hash;
    condition = h.condition;
    found = h.found;
    truth = h.truth;
    reason = h.reason;
    others = h.others;
  }
  first_pod-Reports ready m1 (ok []) h = h
  first_pod-Reports ready m1 (err e) h = h

  module _ (dep : Deployment) where
    -- The write of the status that the run has made up.
    Triple-written :
        {E : Assertion} (ready : Bool) (m1 : PgpilotMonitor) (pods : Result (List String))
        → own_key m1 ≡ own_key m
        → Reports m ready m1.status
        → ((l : List Request) → Reported C before m ready l → E l)
        → Triple
            (Reported C before m ready)
            (patch_status C (first_pod m1 pods))
            (λ _ now. Reported C before m ready now × Recorded C before m dep ready now)
            E
    Triple-written ready m1 pods same reports fails =
        let m2 = first_pod m1 pods in
        let says = first_pod-Reports ready m1 pods reports in
        let key = first_pod-own_key m1 pods ∙ same in
        let kept : KeptByStatus C (own_key m2) m2.status (Reported C before m ready) =
          λ l latest f p.
            Reported-send _
              (says, (latest, subst (λ k. Fetched (C.get_monitor k) latest) key f, refl)) p in
        Triple-weaken _ (λ l p. p)
          (λ a l w. (
            Wrote-kept lawful m2 kept l w,
            (m2.status, says, subst (λ k. Wrote C (Reported C before m ready) k m2.status l) key w),
          ))
          (λ l p. p) (Triple-patch_status lawful m2 kept (λ e r l p. fails l p))

    Triple-rest :
        (replicas : ℤ) (time : ℕ)
        → Fetched (replicas_of C before m dep) replicas
        → Triple
            (Reported C before m (is_positive replicas))
            (report_ready C lib
                (observed (some time) (is_positive replicas))
                m.status.ready
                (is_positive replicas)
              >>= λ m1.
                  attempt (call (C.list_pods m.object_meta.namespace (selector_labels m)))
                  >>= λ pods.
                      in_context "update status" (patch_status C (first_pod m1 pods)) >>= λ _.
                      pure (if is_positive replicas then no_requeue else requeue_in 15))
            (Finished C before m dep)
            (Unfinished C before m dep)
    Triple-rest replicas time fetched =
        let ready = is_positive replicas in
        Triple-bind _ _ (Triple-report_ready-Reports (some time) m.status.ready ready refl) (λ m1.
          Triple-given _ λ known.
            Triple-bind {R = λ _. Reported C before m ready} _ _
              (Triple-attempt {F = Reported C before m ready} _
                (Triple-call _ (λ a l p. p) (λ l p. p)) (λ e l p. p))
              (λ pods.
                Triple-bind
                  {R = λ _ now. Reported C before m ready now × Recorded C before m dep ready now} _
                  _
                  (Triple-in_context _ _ (
                    Triple-written ready m1 pods known.0 known.1
                      (λ l p. inr (replicas, (fetched, p)))))
                  (λ _. Triple-pure _ (λ l p. (replicas, refl, (fetched, p.0), p.1)))))

    pub Triple-report_status-Finished :
        Triple
          (λ now. now ≡ before)
          (report_status C lib m dep)
          (Finished C before m dep)
          (Unfinished C before m dep)
    unfolding report_status
    Triple-report_status-Finished =
        Triple-bind
          {R = λ replicas now. Fetched (replicas_of C before m dep) replicas × (now ≡ before)} _ _
          (Triple-fetch _ (λ a f l p. (f, p)) (λ e r l p. inl ((e, r), p)))
          (λ replicas. Triple-given _ λ fetched.
            Triple-bind {R = λ _ now. now ≡ before} _ _ Triple-clock (λ time.
              Triple-weaken _
                (λ l p.
                  subst (Reported C before m (is_positive replicas)) (sym p)
                    (Reported-start C before m (is_positive replicas)))
                (λ a l p. p) (λ l p. p) (Triple-rest replicas time fetched)))

-- With the helpers of the client libraries as documented, the last step of a reconcile never panics.
-- It sends statuses of the monitor, each with the rest of the monitor as the API server answered it,
-- and an event about the monitor only where its flag changes, to tell so. Each of these statuses has its flag and its `Ready` condition true exactly if the Deployment that was read
-- has a ready replica, is about the monitor's generation, and keeps the hash and the other
-- conditions. If the step returns without an error, then the last that it has sent is such a status,
-- which the API server accepted, and it asks for no requeue if there is a ready
-- replica, and for one in 15 seconds otherwise. If it fails before the Deployment was read, then it
-- has sent nothing.
pub report_status-Finished :
    (C : Cluster) (lib : Library)
    → IsLawful C
    → (m : PgpilotMonitor) (dep : Deployment) (s : Session C)
    → let (a, t) = report_status C lib m dep s in
      Post (Finished C s.requests m dep) (Unfinished C s.requests m dep) a t.requests
report_status-Finished C lib lawful m dep s =
    (Triple-report_status-Finished C lib lawful s.requests m dep).at s refl
