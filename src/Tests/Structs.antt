-- ===== src/Tests/Structs.antt =====
-- A small heap of resources, with structs of other packages that hold no references.
use pgpilot_operator.Base.{ℕ, String, none, some, [], ◌∷◌, false, string_eq}
use pgpilot_operator.Base.Int.{pos}
use pgpilot_operator.Kube.Meta.{TypeMeta, ObjectMeta, Condition, new_meta}
use pgpilot_operator.Kube.Objects.{ResourceRequirements}
use pgpilot_operator.Api.Metrics.{MetricDefinition, PgpilotMetricLibrary}
use pgpilot_operator.Api.Monitor.{CredentialsSecretRef, ImageSpec, PgpilotMonitor}
use pgpilot_operator.Api.Layout.{
  ForeignTypes, MetricDefinitionLayout, PgpilotMonitorLayout, PgpilotMetricLibraryLayout,
  credentials_cell, text_map_cell, monitor_cell, definitions_cell, library_cell, monitors_cell,
  libraries_cell, list_cell,
}
use pgpilot_operator.Api.Memory.{Heap, put, pure}
use pgpilot_operator.Api.Memory.Kinds.{time_kind}
use pgpilot_operator.Api.Memory.Copies.{HoldsFlat, flat-IsCopier, some-IsCopier, ref-IsCopier}
use pgpilot_operator.Api.Memory.{copy_ref}
use pgpilot_operator.Api.DeepCopy.{Foreign}
use pgpilot_operator.Api.DeepCopy.Holds.{IsForeign}

abbrev pub simple : ForeignTypes
simple = record {
  Meta = ObjectMeta;
  ListMeta = String;
  Resources = ResourceRequirements;
  Condition = Condition;
  Time = ℕ;
  Block = Unit {0};
}

abbrev pub simple_copies : Foreign simple
simple_copies = record {
  meta_into = pure;
  list_meta_into = pure;
  resources_into = pure;
  condition_into = pure;
  time_copy = copy_ref time_kind pure;
}

abbrev pub lawful : IsForeign simple simple_copies
lawful = record {
  ListMeta = String;
  HoldsMeta = HoldsFlat;
  HoldsListMeta = HoldsFlat;
  HoldsResources = HoldsFlat;
  HoldsCondition = HoldsFlat;
  HoldsTime = HoldsFlat;
  meta = flat-IsCopier;
  list_meta = flat-IsCopier;
  resources = flat-IsCopier;
  condition = flat-IsCopier;
  time = ref-IsCopier (some-IsCopier flat-IsCopier) time_kind none;
}

abbrev pub secret : CredentialsSecretRef
secret = record { name = "orders-db"; username_key = ""; password_key = "" }

abbrev pub type_of_monitor : TypeMeta
type_of_monitor = record { api_version = "pgpilot.io/v1"; kind = "PgpilotMonitor" }

abbrev pub image : ImageSpec
image = record { repository = ""; tag = ""; pull_policy = "" }

abbrev pub resources : ResourceRequirements
resources = record { limits = []; requests = [] }

-- A monitor whose Secret lies at 0 and whose tags lie at 1.
abbrev pub monitor_at : PgpilotMonitorLayout simple
monitor_at = record {
  type_meta = type_of_monitor;
  object_meta = new_meta "orders" "monitoring" [] [];
  spec = record {
    database = record {
      host = "db";
      port = pos 5432;
      database = "orders";
      sslmode = "";
      username = "";
      password = "";
      credentials_secret = some 0;
      custom_tags = some 1;
    };
    metrics = record { preset = "basic"; from_libraries = none; custom = none };
    sinks = record { prometheus = none; grpc = none };
    resources = resources;
    image = image;
    pod_metadata = record { labels = none; annotations = some 1 };
    service_metadata = record { labels = none; annotations = none };
  };
  status = record {
    ready = false;
    pod_name = "";
    observed_generation = 0;
    config_hash = "";
    last_reconciled = none;
    conditions = none;
  };
}

abbrev pub monitor_held : PgpilotMonitor
monitor_held = record {
  object_meta = new_meta "orders" "monitoring" [] [];
  spec = record {
    database = record {
      host = "db";
      port = pos 5432;
      database = "orders";
      sslmode = "";
      username = "";
      password = "";
      credentials_secret = some secret;
      custom_tags = ("team", "dba") ∷ [];
    };
    metrics = record { preset = "basic"; from_libraries = []; custom = [] };
    sinks = record { prometheus = none; grpc = none };
    resources = resources;
    image = image;
    pod_metadata = record { labels = []; annotations = ("team", "dba") ∷ [] };
    service_metadata = record { labels = []; annotations = [] };
  };
  status = record {
    ready = false;
    pod_name = "";
    observed_generation = 0;
    config_hash = "";
    last_reconciled = none;
    conditions = [];
  };
}

abbrev pub definition_at : MetricDefinitionLayout
definition_at = record {
  name = "sizes";
  description = "";
  interval = none;
  sqls = some 1;
  gauges = none;
  statement_timeout_seconds = pos 0;
  master_only = false;
  standby_only = false;
  is_instance_level = false;
}

abbrev pub definition_held : MetricDefinition
definition_held = record {
  name = "sizes";
  description = "";
  interval = none;
  sqls = ("team", "dba") ∷ [];
  gauges = [];
  statement_timeout_seconds = pos 0;
  master_only = false;
  standby_only = false;
  is_instance_level = false;
}

abbrev pub library_at : PgpilotMetricLibraryLayout simple
library_at = record {
  type_meta = type_of_monitor;
  object_meta = new_meta "common" "monitoring" [] [];
  spec = record { metrics = some 3 };
  status = record { observed_generation = 0; conditions = none };
}

abbrev pub library_held : PgpilotMetricLibrary
library_held = record {
  object_meta = new_meta "common" "monitoring" [] [];
  spec = record { metrics = definition_held ∷ [] };
  status = record { observed_generation = 0; conditions = [] };
}

abbrev pub empty : Heap simple
empty = record { at = λ a. none; next = 0 }

abbrev pub heap : Heap simple
heap =
    let h1 = put empty (credentials_cell secret) in
    let h2 = put h1 (text_map_cell (("team", "dba") ∷ [])) in
    let h3 = put h2 (monitor_cell monitor_at) in
    let h4 = put h3 (definitions_cell (definition_at ∷ [])) in
    let h5 = put h4 (library_cell library_at) in
    let h6 = put h5 (monitors_cell (monitor_at ∷ [])) in
    let h7 =
      put h6 (list_cell (record { type_meta = type_of_monitor; list_meta = ""; items = some 5 })) in
    let h8 = put h7 (libraries_cell (library_at ∷ [])) in
    put h8 (list_cell (record { type_meta = type_of_monitor; list_meta = ""; items = some 7 }))
