-- ===== src/Builder/Ignored.antt =====
-- Settings of the resources that the builder never reads.
use pgpilot_operator.Base.{String, ◌≡◌, refl, Option, none, some}
use pgpilot_operator.Base.Int.{ℤ}
use pgpilot_operator.Api.Metrics.{MetricDefinition}
use pgpilot_operator.Api.Monitor.{GrpcTls, GrpcSink, PgpilotMonitor}
use pgpilot_operator.Builder.Library.{Library}
use pgpilot_operator.Builder.Metrics.{
  MergedMetrics, node_status, metric_def, interval_of, add_metric,
}
use pgpilot_operator.Builder.Deployment.{
  build_env_vars, build_args, container_image, prometheus_port, pgwatch_container, deployment,
  build_deployment,
}
use pgpilot_operator.Builder.Sources.{build_conn_str, source_entry, render_sources}
use pgpilot_operator.Builder.ConfigMap.{config_entries, config_map, build_config_map}

-- The sink with other TLS settings.
abbrev pub with_tls : Option GrpcTls → Option GrpcSink → Option GrpcSink
with_tls tls none = none
with_tls tls (some sink) = some (record sink { tls = tls })

abbrev pub with_sink : String → Option GrpcSink → PgpilotMonitor → PgpilotMonitor
with_sink pull_policy grpc m = record m {
  spec = record m.spec {
    image = record m.spec.image { pull_policy = pull_policy };
    sinks = record m.spec.sinks { grpc = grpc };
  };
}

-- The monitor with another pull policy and other TLS settings of its gRPC sink.
abbrev pub with_ignored : String → Option GrpcTls → PgpilotMonitor → PgpilotMonitor
with_ignored pull_policy tls m = with_sink pull_policy (with_tls tls m.spec.sinks.grpc) m

build_deployment-with_tls :
    (pull_policy : String) (tls : Option GrpcTls) (m : PgpilotMonitor) (merged : MergedMetrics)
    (hash : String) (grpc : Option GrpcSink)
    → build_deployment (with_sink pull_policy (with_tls tls grpc) m) merged hash
      ≡ build_deployment (with_sink m.spec.image.pull_policy grpc m) merged hash
unfolding build_deployment deployment build_env_vars pgwatch_container container_image build_args
    prometheus_port
build_deployment-with_tls pull_policy tls m merged hash none = refl
build_deployment-with_tls pull_policy tls m merged hash (some sink) = refl

-- Three settings of the resources have no effect. Whatever the pull policy of the image is and the
-- TLS settings of the gRPC sink are, the same ConfigMap, hash and Deployment are built; and whatever
-- the statement timeout of a metric is, the same metric is merged.
pub ignored_settings :
    (lib : Library) (m : PgpilotMonitor) (merged : MergedMetrics) (hash : String)
    (pull_policy : String) (tls : Option GrpcTls) (md : MetricDefinition) (timeout : ℤ)
    → let m' = with_ignored pull_policy tls m in
      (build_config_map lib m' merged ≡ build_config_map lib m merged)
      × (build_deployment m' merged hash ≡ build_deployment m merged hash)
      × (add_metric lib merged (record md { statement_timeout_seconds = timeout })
          ≡ add_metric lib merged md)
unfolding build_config_map config_entries config_map render_sources source_entry build_conn_str
    add_metric metric_def node_status interval_of
ignored_settings lib m merged hash pull_policy tls md timeout =
    (refl, build_deployment-with_tls pull_policy tls m merged hash m.spec.sinks.grpc, refl)
