-- ===== src/Builder/Wiring/Scrape.antt =====
-- Where Prometheus scrapes a collector, where the kubelet probes it, and where it serves.
use pgpilot_operator.Base.{
  String, ◌≡◌, refl, Option, none, some, List, [], ◌∷◌, ◌++◌, map, ◌==◌, string_eq, if◌then◌else◌,
}
use pgpilot_operator.Base.Int.{ℤ}
use pgpilot_operator.Kube.Objects.{
  IntOrString, from_int, from_string, EnvVar, ContainerPort, Container, ServicePort, Service,
  ServiceMonitor,
}
use pgpilot_operator.Api.Monitor.{PgpilotMonitor}
use pgpilot_operator.Builder.Metrics.{MergedMetrics}
use pgpilot_operator.Builder.Deployment.{prometheus_port, tcp_probe, pgwatch_container, deployment}
use pgpilot_operator.Builder.Service.{build_service}
use pgpilot_operator.Builder.ServiceMonitor.{build_service_monitor}
use pgpilot_operator.Builder.Wiring.Flags.{
  flag_values, PortIsNat, prometheus_urls, grpc_urls, build_args-sinks,
}

-- The number of the container's port of that name.
abbrev pub port_number : String → List ContainerPort → Option ℤ
port_number name [] = none
port_number name (p ∷ ps) = if p.name == name then some p.container_port else port_number name ps

-- A port that is given by number, or by the name of a port of the container.
abbrev pub resolve : Container → IntOrString → Option ℤ
resolve box (from_int port) = some port
resolve box (from_string name) = port_number name box.ports

abbrev pub target_port : String → List ServicePort → Option IntOrString
target_port name [] = none
target_port name (p ∷ ps) = if p.name == name then some p.target_port else target_port name ps

abbrev pub target_of : Container → Option IntOrString → Option ℤ
target_of box none = none
target_of box (some target) = resolve box target

-- The ports of the container at which the endpoints of the ServiceMonitor arrive: each names a port
-- of the Service, whose target is a port of the container.
unfoldable pub scraped : ServiceMonitor → Service → Container → List (Option ℤ)
scraped sm svc box = map (λ e. target_of box (target_port e.port svc.ports)) sm.endpoints

-- The ports that the kubelet probes.
unfoldable pub probed : Container → List (Option ℤ)
probed box =
    resolve box box.liveness_probe.tcp_socket_port
    ∷ resolve box box.readiness_probe.tcp_socket_port
    ∷ []

module _ (m : PgpilotMonitor) (merged : MergedMetrics) (env : List EnvVar) where
  probed-port :
      probed (pgwatch_container m merged env)
      ≡ some (prometheus_port m) ∷ some (prometheus_port m) ∷ []
  unfolding probed pgwatch_container tcp_probe
  probed-port = refl

  scraped-port :
      scraped (build_service_monitor m) (build_service m) (pgwatch_container m merged env)
      ≡ some (prometheus_port m) ∷ []
  unfolding scraped pgwatch_container build_service build_service_monitor string_eq
  scraped-port = refl

  served :
      PortIsNat m.spec.sinks.prometheus
      → flag_values "--sink" (pgwatch_container m merged env).args
        ≡ prometheus_urls m.spec.sinks.prometheus (prometheus_port m) ++ grpc_urls m.spec.sinks.grpc
  unfolding pgwatch_container
  served natural = build_args-sinks m merged natural

  -- Prometheus, through the ServiceMonitor, the Service and the named port of the container, arrives
  -- at the very port that both probes of the container of the Deployment look at; and that is the port
  -- of the URL of the Prometheus sink that pgwatch is given, where the sink is enabled, if the port of
  -- the spec is not negative.
  pub scraped_where_served :
      (hash : String)
      → PortIsNat m.spec.sinks.prometheus
      → let box = pgwatch_container m merged env in
        let port = prometheus_port m in
        ((deployment m merged hash env).template.spec.containers ≡ box ∷ [])
        × (scraped (build_service_monitor m) (build_service m) box ≡ some port ∷ [])
        × (probed box ≡ some port ∷ some port ∷ [])
        × (flag_values "--sink" box.args
            ≡ prometheus_urls m.spec.sinks.prometheus port ++ grpc_urls m.spec.sinks.grpc)
  unfolding deployment
  scraped_where_served hash natural = (refl, scraped-port, probed-port, served natural)
