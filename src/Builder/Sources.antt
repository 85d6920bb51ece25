-- ===== src/Builder/Sources.antt =====
-- internal/builder/configmap.go: `renderSources` and `buildConnStr`.
use pgpilot_operator.Base.{
  String, ◌<>◌, true, ◌&&◌, [], ◌∷◌, Result, ok, ◌>>=◌, ◌==◌, string_eq, nonempty, has_items,
  if◌then◌else◌,
}
use pgpilot_operator.Base.Int.{ℤ, pos, is_zero}
use pgpilot_operator.Base.Int.Format.{decimal}
use pgpilot_operator.Api.Monitor.{PgpilotMonitor, DatabaseRef, SslMode, ssl_mode_disable}
use pgpilot_operator.Builder.Library.{Library, PgwatchSource}
use pgpilot_operator.Builder.Metrics.{MergedMetrics}
use pgpilot_operator.Builder.Builtin.{expand_preset_into_intervals}

unfoldable pub build_conn_str : DatabaseRef → String
build_conn_str db =
    let port : ℤ = if is_zero db.port then pos 5432 else db.port in
    let sslmode : SslMode = if db.sslmode == "" then ssl_mode_disable else db.sslmode in
    "postgresql://"
    <> (db.host <> (":" <> (decimal port <> ("/" <> (db.database <> ("?sslmode=" <> sslmode))))))

module _ (lib : Library) where
  -- `src` before the switch
  abbrev pub bare_source : PgpilotMonitor → PgwatchSource
  bare_source monitor = record {
    name = monitor.object_meta.name;
    conn_str = build_conn_str monitor.spec.database;
    kind = "postgres";
    preset_metrics = "";
    custom_metrics = [];
    is_enabled = true;
    custom_tags = monitor.spec.database.custom_tags;
  }

  -- `src` after the switch
  unfoldable pub source_entry : PgpilotMonitor → MergedMetrics → Result PgwatchSource
  source_entry monitor merged =
      let src = bare_source monitor in
      if nonempty merged.preset && has_items merged.intervals
      then (do
        expanded ← expand_preset_into_intervals lib merged.preset merged.intervals
        ok (record src { custom_metrics = expanded }))
      else if nonempty merged.preset
      then ok (record src { preset_metrics = merged.preset })
      else if has_items merged.intervals
      then ok (record src { custom_metrics = merged.intervals })
      else ok src

  unfoldable pub render_sources : PgpilotMonitor → MergedMetrics → Result String
  render_sources monitor merged = do
    src ← source_entry monitor merged
    lib.marshal_sources (src ∷ [])
