-- ===== src/Builder/Metrics/Printed.antt =====
-- The server versions as texts and as numbers.
use pgpilot_operator.Base.{String, ◌≡◌, refl, some, [], ◌∷◌, map, arith, string_eq, All}
use pgpilot_operator.Base.Dict.{Dict, insert, lookup-cons, lookup-insert, Same}
use pgpilot_operator.Base.Int.{ℤ, int_eq}
use pgpilot_operator.Base.Int.Format.{decimal, atoi}
use pgpilot_operator.Base.Int.Format.RoundTrip.{InRange, atoi-decimal}
use pgpilot_operator.Builder.Metrics.{parse_sqls}

-- A map of a resource for SQL texts by version.
abbrev pub print : Dict ℤ String → Dict String String
print = map (λ (e : ℤ × String). (decimal e.0, e.1))

abbrev pub AllInRange : Dict ℤ String → Type 0
AllInRange = All (λ (e : ℤ × String). InRange e.0)

parse_sqls-cons :
    (v : ℤ) (key s : String) (sqls : Dict String String)
    → atoi key ≡ some v
    → parse_sqls ((key, s) ∷ sqls) ≡ insert v s (parse_sqls sqls)
unfolding parse_sqls
parse_sqls-cons v key s sqls h = rw (parse_sqls, h) refl

-- SQL texts by version, written with decimal keys, are read back as they were, if every version is
-- a 64-bit integer.
pub parse_sqls-print : (d : Dict ℤ String) → AllInRange d → Same (parse_sqls (print d)) d
unfolding parse_sqls
parse_sqls-print [] h = record { at = λ k. refl }
parse_sqls-print ((v, s) ∷ d) (fits, h) = record {
  at = λ k. ground (
    arith,
    parse_sqls-cons v (decimal v) s (print d) (atoi-decimal v fits),
    lookup-insert k v s (parse_sqls (print d)),
    lookup-cons k v s d,
    (parse_sqls-print d h).at k,
  );
}
