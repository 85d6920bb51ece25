-- ===== src/Builder/Library.antt =====
-- What the builder calls and the repository does not hold: the two YAML libraries, SHA-256, and
-- the floating-point seconds of a duration.
use pgpilot_operator.Base.{String, Bool, Option, List, Result}
use pgpilot_operator.Base.Dict.{Dict}
use pgpilot_operator.Base.Int.{ℤ}

-- internal/builder/configmap.go: pgwatch's own formats, with the fields that have a YAML key.
pub record PgwatchSource : Type 0 where
  pub name : String
  pub conn_str : String
  pub kind : String
  pub preset_metrics : String
  pub custom_metrics : Dict String ℤ
  pub is_enabled : Bool
  pub custom_tags : Dict String String

pub record PgwatchMetric : Type 0 where
  pub init_sql : String
  pub sqls : Dict ℤ String
  pub gauges : List String
  pub is_instance_level : Bool
  pub node_status : String
  pub storage_name : String
  pub description : String

pub record PgwatchPreset : Type 0 where
  pub description : String
  pub metrics : Dict String ℤ

pub record PgwatchMetricsFile : Type 0 where
  pub metrics : Dict String PgwatchMetric
  pub presets : Dict String PgwatchPreset

-- The local struct of `loadBuiltinMetrics`, whose maps may be left nil.
pub record Parsed : Type 0 where
  pub metrics : Option (Dict String PgwatchMetric)
  pub presets : Option (Dict String PgwatchPreset)

-- `marshal_sources` is `yaml.Marshal` of sigs.k8s.io/yaml, `marshal_metrics` is `yaml.Marshal` of
-- yaml.v3, `unmarshal_builtin` is what `yaml.Unmarshal` makes of the embedded metrics.yaml,
-- `hex_digest` is `fmt.Sprintf("%x", …)` of the SHA-256 sum, and `whole_seconds d` is
-- `int(d.Seconds())` for a duration in nanoseconds, and `quote` is `fmt`'s verb `%q`.
pub record Library : Type 0 where
  pub marshal_sources : List PgwatchSource → Result String
  pub marshal_metrics : PgwatchMetricsFile → Result String
  pub unmarshal_builtin : Result Parsed
  pub hex_digest : String → String
  pub whole_seconds : ℤ → ℤ
  pub quote : String → String
