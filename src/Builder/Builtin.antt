-- ===== src/Builder/Builtin.antt =====
-- internal/builder/pgwatch_builtin.go. The embedded file itself reaches the code only through
-- `yaml.Unmarshal`.
use pgpilot_operator.Base.{
  String, ◌<>◌, Option, none, some, [], Result, ok, err, errorf, wrapping, ◌>>=◌, string_eq,
}
use pgpilot_operator.Base.Dict.{Dict, lookup, copy}
use pgpilot_operator.Base.Int.{ℤ}
use pgpilot_operator.Builder.Library.{Library, PgwatchMetric, PgwatchPreset, Parsed}

pub record Registry : Type 0 where
  pub metrics : Dict String PgwatchMetric
  pub presets : Dict String PgwatchPreset

-- `if m == nil { m = map[…]…{} }`
abbrev or_empty {ℓ} : {V : Type ℓ} → Option (Dict String V) → Dict String V
or_empty none = []
or_empty (some d) = d

abbrev registry_of : Parsed → Registry
registry_of p = record { metrics = or_empty p.metrics; presets = or_empty p.presets }

module _ (lib : Library) where
  unfoldable pub load_builtin_metrics : Result Registry
  load_builtin_metrics = do
    parsed ← wrapping "parse embedded pgwatch metrics.yaml" lib.unmarshal_builtin
    ok (registry_of parsed)

  abbrev pub preset_intervals :
      String → Dict String ℤ → Option PgwatchPreset → Result (Dict String ℤ)
  preset_intervals preset_name user_intervals none =
      err (errorf ("unknown pgwatch preset " <> lib.quote preset_name))
  preset_intervals preset_name user_intervals (some preset) =
      ok (copy (copy [] preset.metrics) user_intervals)

  unfoldable pub expand_preset_into_intervals : String → Dict String ℤ → Result (Dict String ℤ)
  expand_preset_into_intervals preset_name user_intervals = do
    registry ← load_builtin_metrics
    preset_intervals preset_name user_intervals (lookup preset_name registry.presets)
