-- ===== src/Tests/Settings.antt =====
-- The settings of one monitor and what is built of them.
use pgpilot_operator.Base.{◌≡◌, refl, true, false, none, some, [], ◌∷◌, ◌++◌}
use pgpilot_operator.Base.Int.{pos}
use pgpilot_operator.Api.Monitor.{PgpilotMonitor}
use pgpilot_operator.Builder.Metrics.{add_metric}
use pgpilot_operator.Builder.ConfigMap.{build_config_map}
use pgpilot_operator.Builder.Deployment.{
  prometheus_port, pgwatch_container, deployment, build_deployment,
}
use pgpilot_operator.Builder.Service.{build_service}
use pgpilot_operator.Builder.ServiceMonitor.{build_service_monitor}
use pgpilot_operator.Builder.Wiring.Flags.{flag_values, prometheus_urls, grpc_urls}
use pgpilot_operator.Builder.Wiring.Scrape.{scraped, probed, scraped_where_served}
use pgpilot_operator.Builder.Ignored.{with_ignored, ignored_settings}
use pgpilot_operator.Tests.Data.{merged, plain, orders, sizes}

scraped_where_served_example :
    let box = pgwatch_container orders merged [] in
    let port = prometheus_port orders in
    ((deployment orders merged "h" []).template.spec.containers ≡ box ∷ [])
    × (scraped (build_service_monitor orders) (build_service orders) box ≡ some port ∷ [])
    × (probed box ≡ some port ∷ some port ∷ [])
    × (flag_values "--sink" box.args
        ≡ prometheus_urls orders.spec.sinks.prometheus port ++ grpc_urls orders.spec.sinks.grpc)
scraped_where_served_example = scraped_where_served orders merged [] "h" refl

-- It pushes its measurements, and serves none.
abbrev pushing : PgpilotMonitor
pushing = record orders {
  spec = record orders.spec {
    sinks = record {
      prometheus = some (record { enabled = false; port = pos 9187 });
      grpc = some (record { enabled = true; endpoint = "sink.example:5000"; tls = none });
    };
  };
}

ignored_settings_example :
    let m = with_ignored "Never" (some (record { ca_secret_ref = "ca" })) pushing in
    (build_config_map plain m merged ≡ build_config_map plain pushing merged)
    × (build_deployment m merged "h" ≡ build_deployment pushing merged "h")
    × (add_metric plain merged (record sizes { statement_timeout_seconds = pos 5 })
        ≡ add_metric plain merged sizes)
ignored_settings_example =
    ignored_settings plain pushing merged "h" "Never" (some (record { ca_secret_ref = "ca" })) sizes
      (pos 5)
