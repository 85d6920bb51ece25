-- ===== src/Builder/Wiring.antt =====
-- How the objects of one monitor refer to one another.
pub mod Files
pub mod Flags
pub mod Scrape
use pgpilot_operator.Base.{
  String, ◌≡◌, refl, inl, inr, Bool-cases, none, some, List, [], ◌∷◌, map, arith, ◌==◌, string_eq,
}
use pgpilot_operator.Base.Dict.{Dict, lookup, lookup-cons, lookup-nil}
use pgpilot_operator.Kube.Objects.{EnvVar, from_int, from_string, tcp}
use pgpilot_operator.Api.Monitor.{PgpilotMonitor}
use pgpilot_operator.Builder.Labels.{
  label_app_name, label_app_instance, app_name, system_labels, merge_labels,
}
use pgpilot_operator.Builder.Labels.Precedence.{lookup-merge_labels}
use pgpilot_operator.Builder.Metrics.{MergedMetrics}
use pgpilot_operator.Builder.Deployment.{
  selector_labels, prometheus_port, tcp_probe, pgwatch_container, deployment,
}
use pgpilot_operator.Builder.Service.{build_service}
use pgpilot_operator.Builder.ServiceMonitor.{build_service_monitor}

-- Every label that the selector asks for stands in the labels.
pub record Selects (selector labels : Dict String String) : Type 0 where
  pub at : (k v : String) → lookup k selector ≡ some v → lookup k labels ≡ some v

Selects-nil : (labels : Dict String String) → Selects [] labels
Selects-nil labels = record { at = λ k v h. absurd (cc (h, lookup-nil {V = String} k)) }

Selects-cons :
    (j w : String) (selector labels : Dict String String)
    → lookup j labels ≡ some w
    → Selects selector labels
    → Selects ((j, w) ∷ selector) labels
Selects-cons j w selector labels own rest = record {
  at = λ k v h. elim (Bool-cases (k == j)) [
    | inl e ↦ ground (arith, lookup-cons k j w selector)
    | inr n ↦ rest.at k v (ground (arith, lookup-cons k j w selector))
  ];
}

lookup-system_labels_instance :
    (name : String) → lookup label_app_instance (system_labels name) ≡ some name
unfolding lookup system_labels string_eq
lookup-system_labels_instance name = refl

lookup-system_labels_name :
    (name : String) → lookup label_app_name (system_labels name) ≡ some app_name
unfolding lookup system_labels string_eq
lookup-system_labels_name name = refl

selector_labels-Selects :
    (m : PgpilotMonitor) (user : Dict String String)
    → Selects (selector_labels m) (merge_labels (system_labels m.object_meta.name) user)
selector_labels-Selects m user =
    Selects-cons _ _ _ _ (rw (lookup-merge_labels, lookup-system_labels_instance))
      (Selects-cons _ _ _ _ (rw (lookup-merge_labels, lookup-system_labels_name)) (Selects-nil _))

module _ (m : PgpilotMonitor) (merged : MergedMetrics) (hash : String) (env : List EnvVar) where
  -- Whatever labels the user adds, the Deployment selects its own pods, the Service selects the
  -- pods of the Deployment, and the ServiceMonitor selects the Service in its namespace.
  pub selectors_match :
      let dep = deployment m merged hash env in
      let svc = build_service m in
      let sm = build_service_monitor m in
      Selects dep.selector.match_labels dep.template.labels
      × Selects svc.selector dep.template.labels
      × Selects sm.selector.match_labels svc.object_meta.labels
      × (sm.match_namespaces ≡ svc.object_meta.namespace ∷ [])
      × (svc.object_meta.namespace ≡ dep.object_meta.namespace)
  unfolding deployment build_service build_service_monitor
  selectors_match = (
    selector_labels-Selects m m.spec.pod_metadata.labels,
    selector_labels-Selects m m.spec.pod_metadata.labels,
    selector_labels-Selects m m.spec.service_metadata.labels,
    refl,
    refl,
  )

  -- One port throughout: the container listens where both probes and the Service's target look,
  -- by number or by the name "metrics", and the ServiceMonitor scrapes the Service's port by name.
  pub ports_agree :
      let box = pgwatch_container m merged env in
      let svc = build_service m in
      let sm = build_service_monitor m in
      (deployment m merged hash env).template.spec.containers ≡ box ∷ []
      × (box.ports
          ≡ record { name = "metrics"; container_port = prometheus_port m; protocol = tcp } ∷ [])
      × (box.liveness_probe.tcp_socket_port ≡ from_int (prometheus_port m))
      × (box.readiness_probe.tcp_socket_port ≡ from_int (prometheus_port m))
      × (map (λ p. p.port) svc.ports ≡ prometheus_port m ∷ [])
      × (map (λ p. p.target_port) svc.ports ≡ from_string "metrics" ∷ [])
      × (map (λ e. e.port) sm.endpoints ≡ map (λ p. p.name) svc.ports)
  unfolding deployment pgwatch_container build_service build_service_monitor tcp_probe
  ports_agree = (refl, refl, refl, refl, refl, refl, refl)
