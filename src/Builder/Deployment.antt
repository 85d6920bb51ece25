-- ===== src/Builder/Deployment.antt =====
-- internal/builder/deployment.go. `none` is a nil-pointer panic.
use pgpilot_operator.Base.{
  String, ◌<>◌, Bool, ◌||◌, has_items, true, false, ◌&&◌, Option, none, some, List, [], ◌∷◌, ◌++◌,
  ◌==◌, string_eq, nonempty, if◌then◌else◌,
}
use pgpilot_operator.Base.Dict.{Dict}
use pgpilot_operator.Base.Int.{ℤ, pos, is_positive, is_zero}
use pgpilot_operator.Base.Int.Format.{decimal}
use pgpilot_operator.Kube.Meta.{new_meta}
use pgpilot_operator.Kube.Objects.{
  from_int, tcp, EnvVar, Probe, Container, config_map_volume, empty_dir, Deployment,
}
use pgpilot_operator.Api.Monitor.{CredentialsSecretRef, PrometheusSink, GrpcSink, PgpilotMonitor}
use pgpilot_operator.Builder.Labels.{
  label_app_name, label_app_instance, annotation_config_hash, app_name, system_labels, merge_labels,
  merge_annotations, resource_name,
}
use pgpilot_operator.Builder.Metrics.{MergedMetrics}
use pgpilot_operator.Builder.ConfigMap.{sources_key, metrics_key}

abbrev pub config_volume_name : String
config_volume_name = "pgwatch-config"

abbrev pub config_mount_path : String
config_mount_path = "/etc/pgwatch"

abbrev pub container_name : String
container_name = "pgwatch"

-- The arguments of the Prometheus sink, and those of the gRPC sink.
abbrev pub prometheus_args : Option PrometheusSink → List String
prometheus_args none = []
prometheus_args (some sink) =
    let port : ℤ = if is_zero sink.port then pos 9187 else sink.port in
    if sink.enabled then "--sink" ∷ ("prometheus://0.0.0.0:" <> decimal port) ∷ [] else []

abbrev pub grpc_args : Option GrpcSink → List String
grpc_args none = []
grpc_args (some sink) =
    if sink.enabled && nonempty sink.endpoint
    then "--sink" ∷ ("grpc://" <> sink.endpoint) ∷ []
    else []

-- `merged.Preset != "" || len(merged.Definitions) > 0`
abbrev pub passes_metrics : MergedMetrics → Bool
passes_metrics merged = nonempty merged.preset || has_items merged.definitions

abbrev pub metrics_args : MergedMetrics → List String
metrics_args merged =
    if passes_metrics merged
    then "--metrics" ∷ (config_mount_path <> ("/" <> metrics_key)) ∷ []
    else []

unfoldable pub build_args : PgpilotMonitor → MergedMetrics → List String
build_args monitor merged =
    "--sources"
    ∷ (config_mount_path <> ("/" <> sources_key))
    ∷ (metrics_args merged
        ++ (prometheus_args monitor.spec.sinks.prometheus ++ grpc_args monitor.spec.sinks.grpc))

abbrev or_default : String → String → String
or_default given default = if given == "" then default else given

abbrev pub secret_env : CredentialsSecretRef → List EnvVar
secret_env secret =
    record {
      name = "PGUSER";
      value = "";
      value_from =
          some (record { name = secret.name; key = or_default secret.username_key "username" });
    }
    ∷ record {
      name = "PGPASSWORD";
      value = "";
      value_from =
          some (record { name = secret.name; key = or_default secret.password_key "password" });
    }
    ∷ []

-- `secret.UsernameKey` reads through the pointer.
abbrev pub env_of_secret : Option CredentialsSecretRef → Option (List EnvVar)
env_of_secret none = none
env_of_secret (some secret) = some (secret_env secret)

unfoldable pub build_env_vars : PgpilotMonitor → Option (List EnvVar)
build_env_vars monitor =
    let db = monitor.spec.database in
    if nonempty db.username && nonempty db.password
    then some (
        record { name = "PGUSER"; value = db.username; value_from = none }
        ∷ record { name = "PGPASSWORD"; value = db.password; value_from = none }
        ∷ [])
    else env_of_secret db.credentials_secret

unfoldable pub container_image : PgpilotMonitor → String
container_image monitor =
    let image = monitor.spec.image in
    or_default image.repository "cybertecpostgresql/pgwatch"
    <> (":" <> or_default image.tag "5.1.0")

abbrev pub sink_port : Option PrometheusSink → ℤ
sink_port none = pos 9187
sink_port (some sink) = if is_positive sink.port then sink.port else pos 9187

unfoldable pub prometheus_port : PgpilotMonitor → ℤ
prometheus_port monitor = sink_port monitor.spec.sinks.prometheus

unfoldable pub tcp_probe : ℤ → ℤ → ℤ → Probe
tcp_probe port initial_delay period = record {
  tcp_socket_port = from_int port;
  initial_delay_seconds = initial_delay;
  period_seconds = period;
  timeout_seconds = pos 5;
  success_threshold = pos 1;
  failure_threshold = pos 3;
}

abbrev pub selector_labels : PgpilotMonitor → Dict String String
selector_labels monitor =
    (label_app_instance, monitor.object_meta.name) ∷ (label_app_name, app_name) ∷ []

-- The element of `Containers`.
unfoldable pub pgwatch_container : PgpilotMonitor → MergedMetrics → List EnvVar → Container
pgwatch_container monitor merged env_vars =
    let prom_port = prometheus_port monitor in
    record {
      name = container_name;
      image = container_image monitor;
      args = build_args monitor merged;
      env = env_vars;
      ports = record { name = "metrics"; container_port = prom_port; protocol = tcp } ∷ [];
      resources = monitor.spec.resources;
      liveness_probe = tcp_probe prom_port (pos 15) (pos 20);
      readiness_probe = tcp_probe prom_port (pos 5) (pos 10);
      security_context = record {
        run_as_non_root = true;
        run_as_user = pos 65534;
        read_only_root_filesystem = true;
        allow_privilege_escalation = false;
        drop_capabilities = "ALL" ∷ [];
      };
      volume_mounts =
          record { name = config_volume_name; mount_path = config_mount_path; read_only = true }
          ∷ record { name = "tmp"; mount_path = "/tmp"; read_only = false }
          ∷ [];
    }

-- `dep`, from the environment that `buildEnvVars` returned
unfoldable pub deployment : PgpilotMonitor → MergedMetrics → String → List EnvVar → Deployment
deployment monitor merged config_hash env_vars =
    let name = resource_name monitor.object_meta.name in
    let sys_labels = system_labels monitor.object_meta.name in
    record {
      type_meta = record { api_version = "apps/v1"; kind = "Deployment" };
      object_meta = new_meta name monitor.object_meta.namespace sys_labels [];
      replicas = pos 1;
      selector = record { match_labels = selector_labels monitor };
      template = record {
        labels = merge_labels sys_labels monitor.spec.pod_metadata.labels;
        annotations =
            merge_annotations ((annotation_config_hash, config_hash) ∷ [])
              monitor.spec.pod_metadata.annotations;
        spec = record {
          containers = pgwatch_container monitor merged env_vars ∷ [];
          volumes =
              record { name = config_volume_name; source = config_map_volume (name <> "-config") }
              ∷ record { name = "tmp"; source = empty_dir }
              ∷ [];
          run_as_non_root = true;
        };
      };
    }

unfoldable pub build_deployment : PgpilotMonitor → MergedMetrics → String → Option Deployment
build_deployment monitor merged config_hash = elim (build_env_vars monitor) [
  | none ↦ none
  | some env_vars ↦ some (deployment monitor merged config_hash env_vars)
]
