-- ===== src/Tests/Merging.antt =====
-- The merge of metrics at concrete inputs.
use pgpilot_operator.Base.{
  String, ◌≡◌, ◌≢◌, ◌↔◌, refl, true, false, some, [], ◌∷◌, arith, ap, ◌==◌, string_eq,
}
use mathlib.Core.Option
use mathlib.Core.Option.{some-injective}
use pgpilot_operator.Base.Dict.{Dict, lookup, insert, Same}
use pgpilot_operator.Base.Int.{ℤ, pos, is_positive, int_eq, ℤ-discrete, negsuc}
use pgpilot_operator.Base.Int.Format.{atoi}
use pgpilot_operator.Builder.Metrics.{
  node_status, metric_def, interval_of, parse_sqls, add_metric, add_metrics, add_libraries,
  merge_metrics,
}
use pgpilot_operator.Builder.Metrics.Merge.{
  all_definitions, last_named, merge_metrics-last_wins, merge_metrics-is_positive,
}
use pgpilot_operator.Builder.Metrics.Versions.{
  Unambiguous, parse_sqls_iff, parse_sqls_depends_on_order,
}
use pgpilot_operator.Tests.Data.{merged, plain, orders, shared}
use pgpilot_operator.Builder.Metrics.Printed.{print, parse_sqls-print}

merge_metrics-last_wins_example :
    let winner = last_named "table_sizes" (all_definitions orders.spec.metrics (shared ∷ [])) in
    (lookup "table_sizes" merged.definitions ≡ Option.map metric_def winner)
    × (lookup "table_sizes" merged.intervals ≡ Option.map (interval_of plain) winner)
    × (merged.preset ≡ "basic")
merge_metrics-last_wins_example =
    merge_metrics-last_wins plain orders.spec.metrics (shared ∷ []) "table_sizes"

merge_metrics-is_positive_example : is_positive (pos 60) ≡ true
unfolding lookup merge_metrics add_libraries add_metrics add_metric interval_of metric_def
    parse_sqls node_status insert string_eq int_eq ℤ-discrete atoi
merge_metrics-is_positive_example =
    merge_metrics-is_positive plain orders.spec.metrics (shared ∷ []) "table_sizes" (pos 60) refl

abbrev one_version : Dict String String
one_version = ("13", "select 1") ∷ []

one_version-Unambiguous : Unambiguous one_version
unfolding lookup
one_version-Unambiguous j k s t version p q _ _ = ground arith

parse_sqls_iff_example :
    (lookup (pos 13) (parse_sqls one_version) ≡ some "select 1")
    ↔ ((key : String) × (atoi key ≡ some (pos 13)) × (lookup key one_version ≡ some "select 1"))
parse_sqls_iff_example = parse_sqls_iff one_version (pos 13) "select 1" one_version-Unambiguous

thirteen_differs : ◌≢◌ {A = String} "13" "013"
unfolding string_eq
thirteen_differs e = let h : true ≡ false = ap (λ x. x == "13") e in absurd (cc h)

texts_differ : ◌≢◌ {A = String} "select 1" "select 2"
unfolding string_eq
texts_differ e = let h : true ≡ false = ap (λ x. x == "select 1") e in absurd (cc h)

parse_sqls_depends_on_order_example :
    let c : Dict String String = ("13", "select 1") ∷ ("013", "select 2") ∷ [] in
    let d : Dict String String = ("013", "select 2") ∷ ("13", "select 1") ∷ [] in
    Same c d × (lookup (pos 13) (parse_sqls c) ≢ lookup (pos 13) (parse_sqls d))
unfolding atoi
parse_sqls_depends_on_order_example =
    parse_sqls_depends_on_order "13" "013" "select 1" "select 2" (pos 13) thirteen_differs
      texts_differ refl refl

abbrev by_version : Dict ℤ String
by_version =
    (pos 13, "select 1") ∷ (pos 9223372036854775807, "select 2") ∷ (negsuc 0, "select 3") ∷ []

parse_sqls-print_example : Same (parse_sqls (print by_version)) by_version
parse_sqls-print_example =
    parse_sqls-print by_version (omega arith, (omega arith, (omega arith, tt)))
