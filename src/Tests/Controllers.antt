-- ===== src/Tests/Controllers.antt =====
-- The reconcilers against an API server that grants every request.
use mathlib.Core.Path.{subst}
use Prim.Native.String.{len}
use pgpilot_operator.Base.{
  ok-injective, ℕ, ◌≤◌, String, List, ap, err, false, ◌≡◌, refl, sym, inr, true, [], ◌∷◌, ok, arith,
  string_eq,
}
use pgpilot_operator.Base.Dict.{insert, lookup}
use pgpilot_operator.Base.Int.{pos}
use pgpilot_operator.Controller.Cluster.{Cluster, IsLawful, last}
use pgpilot_operator.Controller.Session.{Session, CtrlResult, done}
use pgpilot_operator.Controller.Triple.{Post}
use pgpilot_operator.Kube.Objects.{ConfigMap, Deployment}
use pgpilot_operator.Api.Monitor.{PgpilotMonitor}
use pgpilot_operator.Builder.Builtin.{load_builtin_metrics, expand_preset_into_intervals}
use pgpilot_operator.Api.Metrics.{PgpilotMetricLibrary}
use pgpilot_operator.Builder.Metrics.{merge_metrics, add_metrics, add_metric, add_libraries}
use pgpilot_operator.Builder.Sources.{source_entry, render_sources}
use pgpilot_operator.Builder.MetricsFile.{metrics_file, render_metrics}
use pgpilot_operator.Controller.Monitor.Validation.{ResolvedAll}
use pgpilot_operator.Builder.ConfigMap.{config_entries, build_config_map}
use pgpilot_operator.Builder.Secrecy.{HasCredentials}
use pgpilot_operator.Builder.Deployment.{deployment}
use pgpilot_operator.Controller.Monitor.{is_deleted, report_status, reconcile}
use pgpilot_operator.Controller.Monitor.Report.{Finished, Unfinished, report_status-Finished}
use pgpilot_operator.Controller.Monitor.Outcome.{
  Current, carried, marked, Delivered, Outcome, Failed,
}
use pgpilot_operator.Controller.Monitor.Liveness.{Serves, reconcile-Delivered}
use pgpilot_operator.Controller.Monitor.Contract.{reconcile-Outcome}
use pgpilot_operator.Controller.MetricLibrary.{reconcile as reconcile_library}
use pgpilot_operator.Controller.MetricLibrary.Published.{Settled, Unsettled, reconcile-Settled}
use pgpilot_operator.Controller.Watch.{library_object, library_to_monitors}
use pgpilot_operator.Controller.Watch.Enqueued.{EnqueuedBy, library_to_monitors-Enqueued}
use pgpilot_operator.Tests.Data.{plain, orders, orders_key, shared}

abbrev pub granting : Cluster
granting = record {
  World = ℕ;
  get_monitor = λ key w. (ok orders, w);
  get_library = λ key w. (ok shared, w);
  get_secret = λ key w. (ok tt, w);
  get_ready_replicas = λ key w. (ok (pos 1), w);
  list_pods = λ namespace labels w. (ok ("orders-pod" ∷ []), w);
  list_monitors = λ namespace w. (ok (orders ∷ []), w);
  update_monitor = λ m w. (ok m, w);
  update_status = λ m w. (ok tt, w);
  update_library_status = λ l w. (ok tt, w);
  apply = λ o w. (ok tt, w);
  now = λ w. (w, w);
  contains_finalizer = λ meta name. true;
  add_finalizer = λ meta name. meta;
  remove_finalizer = λ meta name. meta;
  set_controller_reference = λ owner meta. ok meta;
  set_status_condition = λ conditions condition. condition ∷ conditions;
  retry_on_conflict = λ S run s. run s;
}

pub granting-IsLawful : IsLawful granting
granting-IsLawful = record {
  retry = λ S run s. last refl;
  condition_self = λ cs c. (c, ground arith, refl, refl, refl, refl);
  condition_other = λ cs c t differ. ground arith;
}

abbrev pub start : Session granting
start = record { world = 0; requests = [] }

pub twelve : (x : _) → 12 ≤ len (plain.hex_digest x)
twelve x = omega arith

reconcile-Outcome_example :
    let (a, t) = reconcile granting plain true orders_key start in
    Post
      (Outcome granting plain true orders_key [])
      (Failed granting plain orders_key [])
      a
      t.requests
reconcile-Outcome_example =
    reconcile-Outcome granting plain granting-IsLawful twelve true orders_key start

reconcile-Settled_example :
    let (a, t) = reconcile_library granting orders_key start in
    Post (Settled granting orders_key []) (Unsettled granting orders_key []) a t.requests
reconcile-Settled_example = reconcile-Settled granting granting-IsLawful orders_key start

library_to_monitors-Enqueued_example :
    let (a, t) = library_to_monitors granting (library_object shared) start in
    Post
      (λ reqs now. EnqueuedBy granting (library_object shared) reqs × (now ≡ []))
      (λ _. ⊥)
      a
      t.requests
library_to_monitors-Enqueued_example =
    library_to_monitors-Enqueued granting (library_object shared) start

abbrev wanted : Deployment
wanted = deployment orders (record { preset = ""; intervals = []; definitions = [] }) "h" []

report_status-Finished_example :
    let (a, t) = report_status granting plain orders wanted start in
    Post (Finished granting [] orders wanted) (Unfinished granting [] orders wanted) a t.requests
report_status-Finished_example =
    report_status-Finished granting plain granting-IsLawful orders wanted start

pub granting-orders : (m : PgpilotMonitor) → Current granting plain orders_key m → m ≡ orders
granting-orders _ (carried m (w, q) _ _) = cc
granting-orders _ (marked m m1 f _ absent _) = cc

granting-HasCredentials : (m : PgpilotMonitor) → m ≡ orders → HasCredentials m.spec.database
granting-HasCredentials m e = subst (λ x. HasCredentials x.spec.database) (sym e) (inr (_, refl))

abbrev BuiltOf : PgpilotMonitor → List PgpilotMetricLibrary → Type 0
BuiltOf m ls =
    (out : ConfigMap × String) × (build_config_map plain m (merge_metrics plain m.spec.metrics ls)
      ≡ ok out)

shared_build : BuiltOf orders (shared ∷ [])
unfolding build_config_map config_entries render_sources source_entry merge_metrics add_metrics
    add_metric add_libraries render_metrics metrics_file load_builtin_metrics
    expand_preset_into_intervals string_eq insert lookup
shared_build = (_, refl)

granting-build :
    (ls : List PgpilotMetricLibrary)
    → ResolvedAll granting orders orders.spec.metrics.from_libraries ls
    → BuiltOf orders ls
granting-build [] h = absurd h
granting-build (l ∷ []) ((w, q), _) =
    subst (λ x. BuiltOf orders (x ∷ [])) (ok-injective q) shared_build
granting-build (l ∷ x ∷ ls) (_, h) = absurd h

granting-Serves : Serves granting plain orders_key
granting-Serves = record {
  reads = λ key w. (orders, refl);
  updates = λ m w. (m, refl);
  secrets = λ key w. (tt, refl);
  libraries = λ key w. (shared, refl);
  replicas = λ key w. (pos 1, refl);
  applies = λ o w. (tt, refl);
  writes = λ m w. (tt, refl);
  owners = λ owner meta. (meta, refl);
  alive = λ m (w, q).
      ap (λ r. elim r [ ok x ↦ is_deleted x.object_meta.deletion_timestamp | err e ↦ false ])
        (sym q);
  usable = λ m current. granting-HasCredentials m (granting-orders m current);
  builds = λ m ls current.
      subst (λ x. ResolvedAll granting x x.spec.metrics.from_libraries ls → BuiltOf x ls)
        (sym (granting-orders m current)) (granting-build ls);
}

reconcile-Delivered_example :
    let (a, t) = reconcile granting plain true orders_key start in
    (result : CtrlResult) × (a ≡ done result)
    × Delivered granting plain true orders_key [] t.requests
reconcile-Delivered_example =
    reconcile-Delivered granting plain orders_key granting-Serves granting-IsLawful twelve true
      start

pub delivered :
    let (a, t) = reconcile granting plain true orders_key start in
    (result : CtrlResult) × (a ≡ done result)
    × Delivered granting plain true orders_key [] t.requests
delivered =
    reconcile-Delivered granting plain orders_key granting-Serves granting-IsLawful twelve true
      start
