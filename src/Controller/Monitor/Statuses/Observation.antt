-- ===== src/Controller/Monitor/Statuses/Observation.antt =====
-- The statuses that end a run whose children were applied.
use mathlib.Core.Path.{subst}
use pgpilot_operator.Base.{
  String, ◌≡◌, Bool, ◌≢◌, refl, sym, ◌∙◌, inl, inr, some, List, [], ◌∷◌, All, ok, string_eq,
}
use pgpilot_operator.Base.Int.{ℤ, is_positive}
use pgpilot_operator.Kube.Meta.{NamespacedName, status_true}
use pgpilot_operator.Kube.Objects.{ConfigMap, Deployment}
use pgpilot_operator.Api.Metrics.{PgpilotMetricLibrary}
use pgpilot_operator.Api.Monitor.{PgpilotMonitorStatus, PgpilotMonitor}
use pgpilot_operator.Builder.Library.{Library}
use pgpilot_operator.Builder.Metrics.{merge_metrics}
use pgpilot_operator.Builder.ConfigMap.{build_config_map}
use pgpilot_operator.Builder.Deployment.{build_deployment}
use pgpilot_operator.Controller.Cluster.{Cluster, IsLawful}
use pgpilot_operator.Controller.Session.{
  Request, update_request, apply_request, status_request, library_status_request, event_request,
}
use pgpilot_operator.Controller.Triple.{Fetched, Triple, Triple-weaken}
use pgpilot_operator.Controller.Monitor.{report_status}
use pgpilot_operator.Controller.Monitor.Status.{with_status}
use pgpilot_operator.Controller.Monitor.Report.{
  Reports, Truthful, Turned, Reported, Triple-report_status-Finished,
}
use pgpilot_operator.Controller.Monitor.Validation.{ResolvedAll}
use pgpilot_operator.Controller.Monitor.Outcome.{Current}
use pgpilot_operator.Controller.Monitor.Statuses.{
  Tells, credentials_reason, Observed, says_observed, new_pod,
}
use pgpilot_operator.Controller.Monitor.Statuses.Account.{Told, Written-append}
use pgpilot_operator.Controller.Monitor.Statuses.Checks.{Sent}

generated_differs : ◌≢◌ {A = String} "ConfigGenerated" "Ready"
generated_differs = cc

database_differs : ◌≢◌ {A = String} "DatabaseReachable" "Ready"
database_differs = cc

-- After the ConfigMap was applied.
pub record Generated (m : PgpilotMonitor) (hash : String) (st : PgpilotMonitorStatus) : Type 0 where
  pub flag : st.ready ≡ m.status.ready
  pub same_hash : st.config_hash ≡ hash
  pub generated : Tells "ConfigGenerated" status_true "ConfigMapUpdated" st
  pub reachable : Tells "DatabaseReachable" status_true (credentials_reason m.spec.database) st

module _ (C : Cluster) (lib : Library) (lawful : IsLawful C) (enabled : Bool) (req : NamespacedName)
    (before : List Request) (m : PgpilotMonitor) (current : Current C lib req m) where
  abbrev S : List Request → Type 0
  S = Sent C lib lawful enabled req before m current

  module _ (libraries : List PgpilotMetricLibrary) (cm : ConfigMap) (dep : Deployment)
      (hash : String) (st : PgpilotMonitorStatus) (generated : Generated m hash st)
      (resolved : ResolvedAll C m m.spec.metrics.from_libraries libraries)
      (built : build_config_map lib m (merge_metrics lib m.spec.metrics libraries) ≡ ok (cm, hash))
      (deployed : build_deployment m (merge_metrics lib m.spec.metrics libraries) hash
        ≡ some dep) where
    Observed-of :
        (replicas : ℤ) (now : PgpilotMonitorStatus)
        → Fetched
            (C.get_ready_replicas
              (record { name = dep.object_meta.name; namespace = dep.object_meta.namespace }))
            replicas
        → Reports (with_status m st) (is_positive replicas) now
        → Observed C lib m now
    Observed-of replicas now fetched r =
        let same : now.config_hash ≡ hash = r.same_hash ∙ generated.same_hash in
        let keep : (t reason : String)
            → t ≢ "Ready"
            → Tells t status_true reason st
            → Tells t status_true reason now =
          λ t reason differ told. (told.0, r.others t differ ∙ told.1, told.2, told.3) in
        record {
          libraries = libraries;
          cm = cm;
          dep = dep;
          replicas = replicas;
          resolved = resolved;
          built =
              subst
                (λ h.
                  build_config_map lib m (merge_metrics lib m.spec.metrics libraries) ≡ ok (cm, h))
                (sym same) built;
          deployed =
              subst
                (λ h. build_deployment m (merge_metrics lib m.spec.metrics libraries) h ≡ some dep)
                (sym same) deployed;
          fetched = fetched;
          flag = r.flag;
          generation = r.generation;
          ready = (r.condition, r.found, r.truth, r.reason);
          generated = keep "ConfigGenerated" _ generated_differs generated.generated;
          reachable = keep "DatabaseReachable" _ database_differs generated.reachable;
        }

    Told-of :
        (replicas : ℤ) (trace : List Request)
        → Fetched
            (C.get_ready_replicas
              (record { name = dep.object_meta.name; namespace = dep.object_meta.namespace }))
            replicas
        → All (Truthful C (with_status m st) (is_positive replicas)) trace
        → All (Told C lib enabled req) trace
    Told-of replicas [] fetched h = tt
    Told-of replicas (status_request w ∷ trace) fetched (h, hs) = (
      (m, current, says_observed (Observed-of replicas w.status fetched h.0), h.1),
      Told-of replicas trace fetched hs,
    )
    Told-of replicas (event_request about kind reason message ∷ trace) fetched (h, hs) = (
      (
        m,
        current,
        new_pod libraries cm hash dep replicas kind reason resolved built deployed fetched
            (subst (λ was. Turned was (is_positive replicas) kind reason) generated.flag h.0),
        h.1,
      ),
      Told-of replicas trace fetched hs,
    )
    Told-of replicas (update_request w ∷ trace) fetched (h, hs) = absurd h
    Told-of replicas (apply_request o ∷ trace) fetched (h, hs) = absurd h
    Told-of replicas (library_status_request l ∷ trace) fetched (h, hs) = absurd h

    Sent-of :
        (replicas : ℤ) (earlier now : List Request)
        → Fetched
            (C.get_ready_replicas
              (record { name = dep.object_meta.name; namespace = dep.object_meta.namespace }))
            replicas
        → S earlier
        → Reported C earlier (with_status m st) (is_positive replicas) now
        → S now
    Sent-of replicas earlier now fetched p r =
        subst S (sym r.split)
          (Written-append C lib r.trace (Told-of replicas r.trace fetched r.truthful) p)

    pub Triple-report_status-Sent : Triple S (report_status C lib (with_status m st) dep) (λ _. S) S
    Triple-report_status-Sent = record {
      at = λ s p.
          (Triple-weaken _ (λ l q. q)
              (λ a l (replicas, _, reports, _). Sent-of replicas s.requests l reports.0 p reports.1)
              (λ l q. elim q [
                | inl (_, same) ↦ subst S (sym same) p
                | inr (replicas, reports) ↦ Sent-of replicas s.requests l reports.0 p reports.1
              ])
              (Triple-report_status-Finished C lib lawful s.requests (with_status m st) dep)).at
            s refl;
    }
