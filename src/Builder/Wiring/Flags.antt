-- ===== src/Builder/Wiring/Flags.antt =====
-- The command line of the pgwatch container.
use pgpilot_operator.Base.{
  zero, suc, String, ◌<>◌, ◌≡◌, refl, Bool, true, false, ◌&&◌, Option, none, some, List, [], ◌∷◌,
  ◌++◌, ◌==◌, string_eq, nonempty, if◌then◌else◌,
}
use pgpilot_operator.Kube.Objects.{ConfigMap}
use pgpilot_operator.Base.Int.{ℤ, pos, negsuc, is_positive, is_zero, is_negative}
use pgpilot_operator.Base.Int.Format.{decimal}
use pgpilot_operator.Api.Monitor.{PrometheusSink, GrpcSink, PgpilotMonitor}
use pgpilot_operator.Builder.Metrics.{MergedMetrics}
use pgpilot_operator.Builder.Library.{Library}
use pgpilot_operator.Builder.Deployment.{
  passes_metrics, prometheus_args, grpc_args, metrics_args, build_args, sink_port, prometheus_port,
}

-- The values that follow a flag, where every argument is a flag or the value of the one before it.
abbrev pub flag_values : String → List String → List String
flag_values f [] = []
flag_values f (flag ∷ []) = []
flag_values f (flag ∷ value ∷ rest) =
    if f == flag then value ∷ flag_values f rest else flag_values f rest

abbrev pub when : Bool → String → List String
when on url = if on then url ∷ [] else []

abbrev flag_when : Bool → String → String → List String
flag_when on flag url = if on then flag ∷ url ∷ [] else []

flags_lem :
    (a b c : Bool) (s m p g : String)
    → let args =
        "--sources"
        ∷ s
        ∷ (flag_when a "--metrics" m ++ (flag_when b "--sink" p ++ flag_when c "--sink" g)) in
      (flag_values "--sources" args ≡ s ∷ [])
      × (flag_values "--metrics" args ≡ when a m)
      × (flag_values "--sink" args ≡ when b p ++ when c g)
unfolding string_eq
flags_lem true true true s m p g = (refl, refl, refl)
flags_lem true true false s m p g = (refl, refl, refl)
flags_lem true false true s m p g = (refl, refl, refl)
flags_lem true false false s m p g = (refl, refl, refl)
flags_lem false true true s m p g = (refl, refl, refl)
flags_lem false true false s m p g = (refl, refl, refl)
flags_lem false false true s m p g = (refl, refl, refl)
flags_lem false false false s m p g = (refl, refl, refl)

-- The port of a Prometheus sink is not negative, as the resource's schema demands.
abbrev pub PortIsNat : Option PrometheusSink → Type 0
PortIsNat none = Unit
PortIsNat (some sink) = is_negative sink.port ≡ false

-- The URLs of the enabled sinks, the Prometheus sink at the port that the container exposes.
abbrev pub prometheus_urls : Option PrometheusSink → ℤ → List String
prometheus_urls none port = []
prometheus_urls (some sink) port = when sink.enabled ("prometheus://0.0.0.0:" <> decimal port)

abbrev pub grpc_urls : Option GrpcSink → List String
grpc_urls none = []
grpc_urls (some sink) = when (sink.enabled && nonempty sink.endpoint) ("grpc://" <> sink.endpoint)

default_port :
    (port : ℤ)
    → is_negative port ≡ false
    → (if is_zero port then pos 9187 else port) ≡ (if is_positive port then port else pos 9187)
default_port (pos zero) h = refl
default_port (pos (suc n)) h = refl
default_port (negsuc n) h = cc

args_flags :
    (merged : MergedMetrics) (p : Option PrometheusSink) (g : Option GrpcSink)
    → PortIsNat p
    → let args =
        "--sources"
        ∷ "/etc/pgwatch/sources.yaml"
        ∷ (metrics_args merged ++ (prometheus_args p ++ grpc_args g)) in
      (flag_values "--sources" args ≡ "/etc/pgwatch/sources.yaml" ∷ [])
      × (flag_values "--metrics" args ≡ when (passes_metrics merged) "/etc/pgwatch/metrics.yaml")
      × (flag_values "--sink" args ≡ prometheus_urls p (sink_port p) ++ grpc_urls g)
args_flags merged none none h = flags_lem (passes_metrics merged) false false _ _ "" ""
args_flags merged none (some g) h =
    flags_lem (passes_metrics merged) false (g.enabled && nonempty g.endpoint) _ _ "" _
args_flags merged (some p) none h =
    rw (default_port p.port h) (flags_lem (passes_metrics merged) p.enabled false _ _ _ "")
args_flags merged (some p) (some g) h =
    rw (default_port p.port h)
      (flags_lem (passes_metrics merged) p.enabled (g.enabled && nonempty g.endpoint) _ _ _ _)

args_lem :
    (m : PgpilotMonitor) (merged : MergedMetrics)
    → PortIsNat m.spec.sinks.prometheus
    → let args = build_args m merged in
      (flag_values "--sources" args ≡ "/etc/pgwatch/sources.yaml" ∷ [])
      × (flag_values "--metrics" args ≡ when (passes_metrics merged) "/etc/pgwatch/metrics.yaml")
      × (flag_values "--sink" args
          ≡ prometheus_urls m.spec.sinks.prometheus (prometheus_port m)
            ++ grpc_urls m.spec.sinks.grpc)
unfolding build_args prometheus_port
args_lem m merged h = args_flags merged m.spec.sinks.prometheus m.spec.sinks.grpc h

-- The sinks alone.
pub build_args-sinks :
    (m : PgpilotMonitor) (merged : MergedMetrics)
    → PortIsNat m.spec.sinks.prometheus
    → flag_values "--sink" (build_args m merged)
      ≡ prometheus_urls m.spec.sinks.prometheus (prometheus_port m) ++ grpc_urls m.spec.sinks.grpc
build_args-sinks m merged h = let (_, _, e) = args_lem m merged h in e
