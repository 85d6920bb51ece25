-- ===== src/Manager/Registration/Owned.antt =====
-- The types of the objects that a reconcile applies, and those that its controller owns.
use mathlib.Core.Option.{some-injective}
use mathlib.Core.Path.{ap₂}
use pgpilot_operator.Base.{
  String, ◌≡◌, refl, sym, ◌∙◌, ap, Bool, true, false, Option, none, some, List, [], ◌∷◌, map, ok,
  ok-injective, >>=-eq-ok,
}
use pgpilot_operator.Kube.Meta.{TypeMeta, ObjectMeta, NamespacedName}
use pgpilot_operator.Kube.Objects.{ConfigMap, Deployment, EnvVar}
use pgpilot_operator.Api.Monitor.{PgpilotMonitor}
use pgpilot_operator.Builder.Library.{Library}
use pgpilot_operator.Builder.Metrics.{MergedMetrics, merge_metrics}
use pgpilot_operator.Builder.ConfigMap.{config_entries, config_map, build_config_map}
use pgpilot_operator.Builder.Deployment.{build_env_vars, deployment, build_deployment}
use pgpilot_operator.Builder.Service.{build_service}
use pgpilot_operator.Builder.ServiceMonitor.{build_service_monitor}
use pgpilot_operator.Controller.Cluster.{
  Cluster, Object, config_map_object, deployment_object, service_object, service_monitor_object,
}
use pgpilot_operator.Controller.Session.{Request}
use pgpilot_operator.Controller.Client.{meta_of, with_meta, stripped}
use pgpilot_operator.Controller.Monitor.Applied.{owned, OwnedAll}
use pgpilot_operator.Controller.Monitor.Workload.{workload}
use pgpilot_operator.Controller.Monitor.Outcome.{Delivered}
use pgpilot_operator.Manager.Registration.{
  ObjectType, monitor_type, library_type, config_map_type, deployment_type, service_type,
  service_monitor_type, BuilderCall, for_type, owns, watches, named, monitor_calls,
}

-- The Go type of an object, and the type that it declares of itself.
abbrev pub type_of : Object → ObjectType
type_of (config_map_object o) = config_map_type
type_of (deployment_object o) = deployment_type
type_of (service_object o) = service_type
type_of (service_monitor_object o) = service_monitor_type

abbrev pub declared : Object → TypeMeta
declared (config_map_object o) = o.type_meta
declared (deployment_object o) = o.type_meta
declared (service_object o) = o.type_meta
declared (service_monitor_object o) = o.type_meta

-- The API version and kind under which Kubernetes knows a type.
abbrev pub known_as : ObjectType → TypeMeta
known_as monitor_type = record { api_version = "pgpilot.io/v1"; kind = "PgpilotMonitor" }
known_as library_type = record { api_version = "pgpilot.io/v1"; kind = "PgpilotMetricLibrary" }
known_as config_map_type = record { api_version = "v1"; kind = "ConfigMap" }
known_as deployment_type = record { api_version = "apps/v1"; kind = "Deployment" }
known_as service_type = record { api_version = "v1"; kind = "Service" }
known_as service_monitor_type = record {
  api_version = "monitoring.coreos.com/v1";
  kind = "ServiceMonitor";
}

abbrev pub owned_by : BuilderCall → List ObjectType → List ObjectType
owned_by (owns t) rest = t ∷ rest
owned_by (for_type t) rest = rest
owned_by (watches t) rest = rest
owned_by (named name) rest = rest

abbrev pub expected : ObjectType → ObjectType × TypeMeta
expected t = (t, known_as t)

-- The types that the controller owns, in the order of the calls.
abbrev pub owned_types : List BuilderCall → List ObjectType
owned_types [] = []
owned_types (c ∷ cs) = owned_by c (owned_types cs)

abbrev pub identity : Object → ObjectType × TypeMeta
identity o = (type_of o, declared o)

identity-stripped :
    (obj : Object) (meta : ObjectMeta) → identity (stripped (with_meta obj meta)) ≡ identity obj
identity-stripped (config_map_object o) meta = refl
identity-stripped (deployment_object o) meta = refl
identity-stripped (service_object o) meta = refl
identity-stripped (service_monitor_object o) meta = refl

module _ (C : Cluster) where
  owned-identity :
      (owner : ObjectMeta) (d o : Object) → owned C owner d ≡ ok o → identity o ≡ identity d
  owned-identity owner d o h =
      let (meta, _, e) = >>=-eq-ok (C.set_controller_reference owner (meta_of d)) _ h in
      ap identity (sym (ok-injective e)) ∙ identity-stripped d meta

  OwnedAll-identity :
      (owner : ObjectMeta) (os ds : List Object)
      → OwnedAll C owner os ds
      → map identity os ≡ map identity ds
  OwnedAll-identity owner [] [] h = refl
  OwnedAll-identity owner [] (d ∷ ds) h = absurd h
  OwnedAll-identity owner (o ∷ os) [] h = absurd h
  OwnedAll-identity owner (o ∷ os) (d ∷ ds) h =
      ap₂ ◌∷◌ (owned-identity owner d o h.0) (OwnedAll-identity owner os ds h.2)

build_config_map-type :
    (lib : Library) (m : PgpilotMonitor) (merged : MergedMetrics) (out : ConfigMap × String)
    → build_config_map lib m merged ≡ ok out
    → out.0.type_meta ≡ known_as config_map_type
unfolding build_config_map config_map
build_config_map-type lib m merged out h =
    let (entries, _, e) = >>=-eq-ok (config_entries lib m merged) _ h in
    ap (λ (x : ConfigMap × String). x.0.type_meta) (sym (ok-injective e))

build_deployment-type :
    (m : PgpilotMonitor) (merged : MergedMetrics) (hash : String) (dep : Deployment)
    → build_deployment m merged hash ≡ some dep
    → dep.type_meta ≡ known_as deployment_type
unfolding build_deployment deployment
build_deployment-type m merged hash dep h = go (build_env_vars m) h
  where
    go :
        (env : Option (List EnvVar))
        → elim env [ none ↦ none | some vars ↦ some (deployment m merged hash vars) ] ≡ some dep
        → dep.type_meta ≡ known_as deployment_type
    go none e = cc
    go (some vars) e =
        ap (λ (x : Deployment). x.type_meta)
          (sym (some-injective (deployment m merged hash vars) dep e))

-- The objects to be applied, by what is known of the first two.
workload-identity :
    (enabled : Bool) (m : PgpilotMonitor) (cm : ConfigMap) (dep : Deployment)
    → cm.type_meta ≡ known_as config_map_type
    → dep.type_meta ≡ known_as deployment_type
    → map identity (config_map_object cm ∷ workload enabled m dep)
      ≡ map expected (owned_types (monitor_calls enabled))
unfolding monitor_calls build_service build_service_monitor
workload-identity true m cm dep p q = rw (p, q) refl
workload-identity false m cm dep p q = rw (p, q) refl

-- The objects that a reconcile has applied are one of each type that its controller owns, in the
-- order of the registration, so that a change of any of them enqueues the monitor; and each of them
-- declares the API version and the kind of its type.
pub Delivered-owned_types :
    (C : Cluster) (lib : Library) (enabled : Bool) (req : NamespacedName)
    (before now : List Request) (d : Delivered C lib enabled req before now)
    → map identity d.converged.objects ≡ map expected (owned_types (monitor_calls enabled))
Delivered-owned_types C lib enabled req before now d =
    let r = d.converged in
    let merged = merge_metrics lib d.monitor.spec.metrics d.libraries in
    OwnedAll-identity C d.monitor.object_meta r.objects _ r.owned_all
    ∙ workload-identity enabled d.monitor r.cm r.dep
        (build_config_map-type lib d.monitor merged (r.cm, r.hash) r.built)
        (build_deployment-type d.monitor merged r.hash r.dep r.deployed)
