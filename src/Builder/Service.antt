-- ===== src/Builder/Service.antt =====
-- internal/builder/service.go
use pgpilot_operator.Base.{[], ◌∷◌}
use pgpilot_operator.Kube.Meta.{new_meta}
use pgpilot_operator.Kube.Objects.{from_string, tcp, cluster_ip, Service}
use pgpilot_operator.Api.Monitor.{PgpilotMonitor}
use pgpilot_operator.Builder.Labels.{system_labels, merge_labels, merge_annotations, resource_name}
use pgpilot_operator.Builder.Deployment.{prometheus_port, selector_labels}

unfoldable pub build_service : PgpilotMonitor → Service
build_service monitor = record {
  type_meta = record { api_version = "v1"; kind = "Service" };
  object_meta =
      new_meta (resource_name monitor.object_meta.name) monitor.object_meta.namespace
        (merge_labels (system_labels monitor.object_meta.name) monitor.spec.service_metadata.labels)
        (merge_annotations [] monitor.spec.service_metadata.annotations);
  service_type = cluster_ip;
  selector = selector_labels monitor;
  ports =
      record {
        name = "metrics";
        protocol = tcp;
        port = prometheus_port monitor;
        target_port = from_string "metrics";
      }
      ∷ [];
}
