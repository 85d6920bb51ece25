-- ===== src/Tests/Steady.antt =====
-- A run of `Reconcile` on a monitor that an earlier run has settled.
use pgpilot_operator.Base.{
  String, List, ◌≡◌, refl, sym, ap, inl, inr, true, false, Bool, Result, err, errorf, some, none,
  [], ◌∷◌, ok, ok-injective, arith, string_eq,
}
use pgpilot_operator.Base.Dict.{insert, lookup}
use pgpilot_operator.Base.Int.{pos}
use pgpilot_operator.Kube.Meta.{Condition, status_true}
use pgpilot_operator.Api.Metrics.{PgpilotMetricLibrary}
use pgpilot_operator.Api.Monitor.{PgpilotMonitorStatus}
use pgpilot_operator.Builder.Builtin.{load_builtin_metrics, expand_preset_into_intervals}
use pgpilot_operator.Builder.Metrics.{merge_metrics, add_metrics, add_metric, add_libraries}
use pgpilot_operator.Builder.Sources.{source_entry, render_sources, build_conn_str}
use pgpilot_operator.Builder.MetricsFile.{metrics_file, render_metrics}
use pgpilot_operator.Builder.ConfigMap.{config_entries, config_map, build_config_map}
use pgpilot_operator.Builder.Hash.{content_hash}
use pgpilot_operator.Builder.Deployment.{
  build_env_vars, build_args, container_image, prometheus_port, pgwatch_container, deployment,
  build_deployment,
}
use pgpilot_operator.Controller.Cluster.{Cluster, IsLawful, last}
use pgpilot_operator.Controller.Session.{Session}
use pgpilot_operator.Controller.Monitor.{reconcile}
use pgpilot_operator.Controller.Monitor.Validation.{ResolvedAll}
use pgpilot_operator.Controller.Monitor.Statuses.{Observed}
use pgpilot_operator.Controller.Monitor.Steady.{renewed, Follows, Unchanged, Unmoved}
use pgpilot_operator.Controller.Monitor.Steady.Repeats.{
  Repeats, stays, others_act, again, Repeats-Unmoved,
}
use pgpilot_operator.Tests.Data.{plain, orders, orders_key, shared}
use pgpilot_operator.Tests.Controllers.{twelve}

abbrev is_ready : (b : Bool) → Dec (b ≡ true)
is_ready true = yes refl
is_ready false = no (λ e. absurd (cc e))

abbrev told : String → String → Condition
told condition_type reason = record {
  condition_type = condition_type;
  status = status_true;
  observed_generation = 0;
  last_transition_time = none;
  reason = reason;
  message = "";
}

abbrev settled_status : PgpilotMonitorStatus
settled_status = record {
  ready = true;
  pod_name = "orders-pod";
  observed_generation = 0;
  config_hash = "0123456789abcdef";
  last_reconciled = some 5;
  conditions =
      told "Ready" "PodRunning"
      ∷ told "ConfigGenerated" "ConfigMapUpdated"
      ∷ told "DatabaseReachable" "CredentialsFound"
      ∷ [];
}

-- The status of the monitor that the API server stores.
abbrev Stored : Type 0
Stored = (later : PgpilotMonitorStatus) × Follows settled_status later

abbrev first : Stored
first = (settled_status, (refl, refl))

-- A status of the same hash and flag is stored, any other refused.
abbrev store :
    (st : PgpilotMonitorStatus)
    → Dec (st.config_hash ≡ settled_status.config_hash)
    → Dec (st.ready ≡ settled_status.ready)
    → Stored
    → Result (Unit {0}) × Stored
store st (yes p) (yes q) w = (ok tt, (st, (p, q)))
store st (yes p) (no q) w = (err (errorf "invalid"), w)
store st (no p) d w = (err (errorf "invalid"), w)

-- It answers with the monitor under the status that it stores.
abbrev settled : Cluster
settled = record {
  World = Stored;
  get_monitor = λ key w. (ok (renewed orders w.0 "17" ("pgpilot-operator" ∷ [])), w);
  get_library = λ key w. (ok shared, w);
  get_secret = λ key w. (ok tt, w);
  get_ready_replicas = λ key w. (ok (pos 1), w);
  list_pods = λ namespace labels w. (ok ("orders-pod" ∷ []), w);
  list_monitors = λ namespace w. (ok (orders ∷ []), w);
  update_monitor = λ m w. (ok m, w);
  update_status = λ m w.
      store m.status (string_eq.dec m.status.config_hash settled_status.config_hash)
        (is_ready m.status.ready) w;
  update_library_status = λ l w. (ok tt, w);
  apply = λ o w. (ok tt, w);
  now = λ w. (7, w);
  contains_finalizer = λ meta name. true;
  add_finalizer = λ meta name. meta;
  remove_finalizer = λ meta name. meta;
  set_controller_reference = λ owner meta. ok meta;
  set_status_condition = λ conditions condition. condition ∷ conditions;
  retry_on_conflict = λ S run s. run s;
}

settled-IsLawful : IsLawful settled
settled-IsLawful = record {
  retry = λ S run s. last refl;
  condition_self = λ cs c. (c, ground arith, refl, refl, refl, refl);
  condition_other = λ cs c t differ. ground arith;
}

unfoldable settled-Observed : Observed settled plain orders settled_status
unfolding build_config_map config_entries config_map content_hash render_sources source_entry
    build_conn_str merge_metrics add_metrics add_metric add_libraries render_metrics metrics_file
    load_builtin_metrics expand_preset_into_intervals string_eq insert lookup build_deployment
    deployment build_env_vars pgwatch_container container_image build_args prometheus_port
settled-Observed = record {
  libraries = shared ∷ [];
  cm = _;
  dep = _;
  replicas = pos 1;
  resolved = ((first, refl), tt);
  built = refl;
  deployed = refl;
  fetched = (first, refl);
  flag = refl;
  generation = refl;
  ready = (told "Ready" "PodRunning", refl, refl, refl);
  generated = (told "ConfigGenerated" "ConfigMapUpdated", refl, refl, refl);
  reachable = (told "DatabaseReachable" "CredentialsFound", refl, refl, refl);
}

only_shared :
    (ls : List PgpilotMetricLibrary)
    → ResolvedAll settled orders orders.spec.metrics.from_libraries ls
    → ls ≡ shared ∷ []
only_shared [] h = absurd h
only_shared (l ∷ []) ((w, q), _) = ap (λ x. x ∷ []) (sym (ok-injective q))
only_shared (l ∷ x ∷ ls) (_, h) = absurd h

settled-Unchanged : Unchanged settled plain true orders_key orders settled_status settled-Observed
unfolding settled-Observed
settled-Unchanged = record {
  alive = refl;
  credentials = inr (_, refl);
  monitor = λ x (w, q). (refl, (w.0, "17", "pgpilot-operator" ∷ [], w.1, sym (ok-injective q)));
  secret = λ ref e named (w, q). cc;
  granted = λ h. elim h [ inl (e, (w, q)) ↦ cc | inr other ↦ other ];
  libraries = only_shared;
  replicas = λ n (w, q). sym (ok-injective q);
}

abbrev later_start : Session settled
later_start = record { world = first; requests = [] }

abbrev once : Session settled
once = (reconcile settled plain true orders_key later_start).1

-- Another client has changed the status, too.
abbrev touched : Stored
touched = (record settled_status { pod_name = "other"; conditions = [] }, (refl, refl))

abbrev disturbed : Session settled
disturbed = record once { world = touched }

abbrev twice : Session settled
twice = (reconcile settled plain true orders_key disturbed).1

Repeats-twice : Repeats settled plain true orders_key later_start twice
Repeats-twice = again (others_act touched (again stays))

Repeats-Unmoved_example :
    Unmoved settled plain true orders_key orders settled_status settled-Observed [] twice.requests
Repeats-Unmoved_example =
    Repeats-Unmoved settled plain true orders_key orders settled_status settled-Observed
      settled-Unchanged settled-IsLawful twelve later_start twice Repeats-twice
