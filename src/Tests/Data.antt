-- ===== src/Tests/Data.antt =====
-- Two monitors, a library, and libraries and an API server that are simple functions.
use pgpilot_operator.Base.{true, false, none, some, [], ◌∷◌, ok}
use pgpilot_operator.Base.Int.{pos}
use pgpilot_operator.Kube.Meta.{NamespacedName, new_meta}
use pgpilot_operator.Api.Metrics.{MetricDefinition, PgpilotMetricLibrary}
use pgpilot_operator.Api.Monitor.{PgpilotMonitor}
use pgpilot_operator.Builder.Library.{Library, PgwatchMetric, PgwatchPreset}
use pgpilot_operator.Builder.Metrics.{MergedMetrics, merge_metrics}
use pgpilot_operator.Builder.Builtin.{Registry}

abbrev pub sizes : MetricDefinition
sizes = record {
  name = "table_sizes";
  description = "";
  interval = some (pos 30);
  sqls = ("13", "select 1") ∷ ("abc", "select 2") ∷ [];
  gauges = [];
  statement_timeout_seconds = pos 0;
  master_only = true;
  standby_only = false;
  is_instance_level = false;
}

abbrev pub shared : PgpilotMetricLibrary
shared = record {
  object_meta = new_meta "common" "monitoring" [] [];
  spec = record { metrics = sizes ∷ [] };
  status = record { observed_generation = 0; conditions = [] };
}

abbrev pub orders : PgpilotMonitor
orders = record {
  object_meta = record (new_meta "orders" "monitoring" [] []) {
    finalizers = "pgpilot.io/finalizer" ∷ [];
  };
  spec = record {
    database = record {
      host = "db.example";
      port = pos 5432;
      database = "orders";
      sslmode = "";
      username = "";
      password = "";
      credentials_secret =
          some (record { name = "orders-db"; username_key = ""; password_key = "" });
      custom_tags = [];
    };
    metrics = record {
      preset = "basic";
      from_libraries = record { name = "common" } ∷ [];
      custom = record sizes { interval = none } ∷ [];
    };
    sinks = record { prometheus = some (record { enabled = true; port = pos 9200 }); grpc = none };
    resources = record { limits = []; requests = [] };
    image = record { repository = ""; tag = ""; pull_policy = "" };
    pod_metadata = record {
      labels = ("app.kubernetes.io/name", "mine") ∷ ("team", "dba") ∷ [];
      annotations = [];
    };
    service_metadata = record { labels = []; annotations = [] };
  };
  status = record {
    ready = false;
    pod_name = "";
    observed_generation = 0;
    config_hash = "";
    last_reconciled = none;
    conditions = [];
  };
}

abbrev pub bgwriter : PgwatchMetric
bgwriter = record {
  init_sql = "";
  sqls = (pos 11, "select 3") ∷ [];
  gauges = [];
  is_instance_level = true;
  node_status = "";
  storage_name = "";
  description = "";
}

abbrev pub basic : PgwatchPreset
basic = record { description = "a few"; metrics = ("bgwriter", pos 60) ∷ [] }

abbrev pub builtin : Registry
builtin = record { metrics = ("bgwriter", bgwriter) ∷ []; presets = ("basic", basic) ∷ [] }

abbrev pub plain : Library
plain = record {
  marshal_sources = λ sources. ok "a";
  marshal_metrics = λ file. ok "b";
  unmarshal_builtin = ok (record {
    metrics = some (("bgwriter", bgwriter) ∷ []);
    presets = some (("basic", basic) ∷ []);
  });
  hex_digest = λ text. "0123456789abcdef";
  whole_seconds = λ d. d;
  quote = λ text. text;
}

abbrev pub orders_key : NamespacedName
orders_key = record { name = "orders"; namespace = "monitoring" }

abbrev pub merged : MergedMetrics
merged = merge_metrics plain orders.spec.metrics (shared ∷ [])
