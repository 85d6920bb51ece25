-- ===== src/Api/Memory/Kinds.antt =====
-- The kinds of cells.
use pgpilot_operator.Base.{String, refl, Option, none, some, List}
use pgpilot_operator.Base.Dict.{Dict}
use pgpilot_operator.Base.Int.{ℤ}
use pgpilot_operator.Api.Monitor.{
  CredentialsSecretRef, LibraryRef, PrometheusSink, GrpcTls, ImageSpec,
}
use pgpilot_operator.Api.Layout.{
  ForeignTypes, DatabaseRefLayout, GrpcSinkLayout, MetricDefinitionLayout, MetricsSpecLayout,
  ObjectMetadataOverridesLayout, SinksSpecLayout, PgpilotMetricLibrarySpecLayout,
  PgpilotMetricLibraryStatusLayout, PgpilotMonitorStatusLayout, PgpilotMonitorSpecLayout,
  PgpilotMetricLibraryLayout, PgpilotMonitorLayout, ListLayout, Cell, text_map_cell, texts_cell,
  duration_cell, time_cell, credentials_cell, tls_cell, prometheus_cell, grpc_cell, refs_cell,
  definitions_cell, conditions_cell, libraries_cell, monitors_cell, library_cell, monitor_cell,
  list_cell, database_cell, image_cell, ref_cell, definition_cell, metrics_spec_cell,
  overrides_cell, library_spec_cell, library_status_cell, monitor_spec_cell, monitor_status_cell,
  sinks_cell,
}
use pgpilot_operator.Api.Memory.{Kind}

module _ {T : ForeignTypes} where
  abbrev pub in_text_map : Cell T → Option (Dict String String)
  in_text_map (text_map_cell x) = some x
  in_text_map _ = none

  abbrev pub text_map_kind : Kind T (Dict String String)
  text_map_kind = record { wrap = text_map_cell; unwrap = in_text_map; unwrap-wrap = λ x. refl }

  abbrev pub in_texts : Cell T → Option (List String)
  in_texts (texts_cell x) = some x
  in_texts _ = none

  abbrev pub texts_kind : Kind T (List String)
  texts_kind = record { wrap = texts_cell; unwrap = in_texts; unwrap-wrap = λ x. refl }

  abbrev pub in_duration : Cell T → Option ℤ
  in_duration (duration_cell x) = some x
  in_duration _ = none

  abbrev pub duration_kind : Kind T ℤ
  duration_kind = record { wrap = duration_cell; unwrap = in_duration; unwrap-wrap = λ x. refl }

  abbrev pub in_time : Cell T → Option T.Time
  in_time (time_cell x) = some x
  in_time _ = none

  abbrev pub time_kind : Kind T T.Time
  time_kind = record { wrap = time_cell; unwrap = in_time; unwrap-wrap = λ x. refl }

  abbrev pub in_credentials : Cell T → Option CredentialsSecretRef
  in_credentials (credentials_cell x) = some x
  in_credentials _ = none

  abbrev pub credentials_kind : Kind T CredentialsSecretRef
  credentials_kind = record {
    wrap = credentials_cell;
    unwrap = in_credentials;
    unwrap-wrap = λ x. refl;
  }

  abbrev pub in_tls : Cell T → Option GrpcTls
  in_tls (tls_cell x) = some x
  in_tls _ = none

  abbrev pub tls_kind : Kind T GrpcTls
  tls_kind = record { wrap = tls_cell; unwrap = in_tls; unwrap-wrap = λ x. refl }

  abbrev pub in_prometheus : Cell T → Option PrometheusSink
  in_prometheus (prometheus_cell x) = some x
  in_prometheus _ = none

  abbrev pub prometheus_kind : Kind T PrometheusSink
  prometheus_kind = record {
    wrap = prometheus_cell;
    unwrap = in_prometheus;
    unwrap-wrap = λ x. refl;
  }

  abbrev pub in_grpc : Cell T → Option GrpcSinkLayout
  in_grpc (grpc_cell x) = some x
  in_grpc _ = none

  abbrev pub grpc_kind : Kind T GrpcSinkLayout
  grpc_kind = record { wrap = grpc_cell; unwrap = in_grpc; unwrap-wrap = λ x. refl }

  abbrev pub in_refs : Cell T → Option (List LibraryRef)
  in_refs (refs_cell x) = some x
  in_refs _ = none

  abbrev pub refs_kind : Kind T (List LibraryRef)
  refs_kind = record { wrap = refs_cell; unwrap = in_refs; unwrap-wrap = λ x. refl }

  abbrev pub in_definitions : Cell T → Option (List MetricDefinitionLayout)
  in_definitions (definitions_cell x) = some x
  in_definitions _ = none

  abbrev pub definitions_kind : Kind T (List MetricDefinitionLayout)
  definitions_kind = record {
    wrap = definitions_cell;
    unwrap = in_definitions;
    unwrap-wrap = λ x. refl;
  }

  abbrev pub in_conditions : Cell T → Option (List T.Condition)
  in_conditions (conditions_cell x) = some x
  in_conditions _ = none

  abbrev pub conditions_kind : Kind T (List T.Condition)
  conditions_kind = record {
    wrap = conditions_cell;
    unwrap = in_conditions;
    unwrap-wrap = λ x. refl;
  }

  abbrev pub in_libraries : Cell T → Option (List (PgpilotMetricLibraryLayout T))
  in_libraries (libraries_cell x) = some x
  in_libraries _ = none

  abbrev pub libraries_kind : Kind T (List (PgpilotMetricLibraryLayout T))
  libraries_kind = record { wrap = libraries_cell; unwrap = in_libraries; unwrap-wrap = λ x. refl }

  abbrev pub in_monitors : Cell T → Option (List (PgpilotMonitorLayout T))
  in_monitors (monitors_cell x) = some x
  in_monitors _ = none

  abbrev pub monitors_kind : Kind T (List (PgpilotMonitorLayout T))
  monitors_kind = record { wrap = monitors_cell; unwrap = in_monitors; unwrap-wrap = λ x. refl }

  abbrev pub in_library : Cell T → Option (PgpilotMetricLibraryLayout T)
  in_library (library_cell x) = some x
  in_library _ = none

  abbrev pub library_kind : Kind T (PgpilotMetricLibraryLayout T)
  library_kind = record { wrap = library_cell; unwrap = in_library; unwrap-wrap = λ x. refl }

  abbrev pub in_monitor : Cell T → Option (PgpilotMonitorLayout T)
  in_monitor (monitor_cell x) = some x
  in_monitor _ = none

  abbrev pub monitor_kind : Kind T (PgpilotMonitorLayout T)
  monitor_kind = record { wrap = monitor_cell; unwrap = in_monitor; unwrap-wrap = λ x. refl }

  abbrev pub in_list : Cell T → Option (ListLayout T)
  in_list (list_cell x) = some x
  in_list _ = none

  abbrev pub list_kind : Kind T (ListLayout T)
  list_kind = record { wrap = list_cell; unwrap = in_list; unwrap-wrap = λ x. refl }

  abbrev pub in_database : Cell T → Option DatabaseRefLayout
  in_database (database_cell x) = some x
  in_database _ = none

  abbrev pub database_kind : Kind T DatabaseRefLayout
  database_kind = record { wrap = database_cell; unwrap = in_database; unwrap-wrap = λ x. refl }

  abbrev pub in_image : Cell T → Option ImageSpec
  in_image (image_cell x) = some x
  in_image _ = none

  abbrev pub image_kind : Kind T ImageSpec
  image_kind = record { wrap = image_cell; unwrap = in_image; unwrap-wrap = λ x. refl }

  abbrev pub in_ref : Cell T → Option LibraryRef
  in_ref (ref_cell x) = some x
  in_ref _ = none

  abbrev pub ref_kind : Kind T LibraryRef
  ref_kind = record { wrap = ref_cell; unwrap = in_ref; unwrap-wrap = λ x. refl }

  abbrev pub in_definition : Cell T → Option MetricDefinitionLayout
  in_definition (definition_cell x) = some x
  in_definition _ = none

  abbrev pub definition_kind : Kind T MetricDefinitionLayout
  definition_kind = record {
    wrap = definition_cell;
    unwrap = in_definition;
    unwrap-wrap = λ x. refl;
  }

  abbrev pub in_metrics_spec : Cell T → Option MetricsSpecLayout
  in_metrics_spec (metrics_spec_cell x) = some x
  in_metrics_spec _ = none

  abbrev pub metrics_spec_kind : Kind T MetricsSpecLayout
  metrics_spec_kind = record {
    wrap = metrics_spec_cell;
    unwrap = in_metrics_spec;
    unwrap-wrap = λ x. refl;
  }

  abbrev pub in_overrides : Cell T → Option ObjectMetadataOverridesLayout
  in_overrides (overrides_cell x) = some x
  in_overrides _ = none

  abbrev pub overrides_kind : Kind T ObjectMetadataOverridesLayout
  overrides_kind = record { wrap = overrides_cell; unwrap = in_overrides; unwrap-wrap = λ x. refl }

  abbrev pub in_library_spec : Cell T → Option PgpilotMetricLibrarySpecLayout
  in_library_spec (library_spec_cell x) = some x
  in_library_spec _ = none

  abbrev pub library_spec_kind : Kind T PgpilotMetricLibrarySpecLayout
  library_spec_kind = record {
    wrap = library_spec_cell;
    unwrap = in_library_spec;
    unwrap-wrap = λ x. refl;
  }

  abbrev pub in_library_status : Cell T → Option PgpilotMetricLibraryStatusLayout
  in_library_status (library_status_cell x) = some x
  in_library_status _ = none

  abbrev pub library_status_kind : Kind T PgpilotMetricLibraryStatusLayout
  library_status_kind = record {
    wrap = library_status_cell;
    unwrap = in_library_status;
    unwrap-wrap = λ x. refl;
  }

  abbrev pub in_monitor_spec : Cell T → Option (PgpilotMonitorSpecLayout T)
  in_monitor_spec (monitor_spec_cell x) = some x
  in_monitor_spec _ = none

  abbrev pub monitor_spec_kind : Kind T (PgpilotMonitorSpecLayout T)
  monitor_spec_kind = record {
    wrap = monitor_spec_cell;
    unwrap = in_monitor_spec;
    unwrap-wrap = λ x. refl;
  }

  abbrev pub in_monitor_status : Cell T → Option PgpilotMonitorStatusLayout
  in_monitor_status (monitor_status_cell x) = some x
  in_monitor_status _ = none

  abbrev pub monitor_status_kind : Kind T PgpilotMonitorStatusLayout
  monitor_status_kind = record {
    wrap = monitor_status_cell;
    unwrap = in_monitor_status;
    unwrap-wrap = λ x. refl;
  }

  abbrev pub in_sinks : Cell T → Option SinksSpecLayout
  in_sinks (sinks_cell x) = some x
  in_sinks _ = none

  abbrev pub sinks_kind : Kind T SinksSpecLayout
  sinks_kind = record { wrap = sinks_cell; unwrap = in_sinks; unwrap-wrap = λ x. refl }
