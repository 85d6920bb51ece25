-- ===== src/Builder/Metrics/Versions.antt =====
-- The SQL texts by server version: what the loop over `md.SQLs` keeps.
use pgpilot_operator.Base.{
  String, ◌≡◌, refl, ◌≢◌, sym, ◌∙◌, ◌↔◌, inl, inr, Bool, true, false, Bool-cases, Option, none,
  some, [], ◌∷◌, arith, ◌==◌, string_eq, if◌then◌else◌,
}
use pgpilot_operator.Base.Dict.{Dict, insert, lookup, lookup-nil, lookup-cons, lookup-insert, Same}
use pgpilot_operator.Base.Int.{ℤ, int_eq}
use pgpilot_operator.Base.Int.Format.{atoi}
use pgpilot_operator.Builder.Metrics.{parse_sqls}

-- No two keys of the map are read as one version number, such as "13" and "013".
abbrev pub Unambiguous : Dict String String → Type 0
Unambiguous sqls =
    (j k s t : String) (version : ℤ)
    → lookup j sqls ≡ some s
    → lookup k sqls ≡ some t
    → atoi j ≡ some version
    → atoi k ≡ some version
    → j ≡ k

abbrev reads_as : String → ℤ → Bool
reads_as key version = elim (atoi key) [ none ↦ false | some v ↦ version == v ]

reads_as_iff :
    (key : String) (version : ℤ) → (reads_as key version ≡ true) ↔ (atoi key ≡ some version)
reads_as_iff key version = ground arith

lookup-parse_sqls-cons :
    (key s : String) (sqls : Dict String String) (version : ℤ)
    → lookup version (parse_sqls ((key, s) ∷ sqls))
      ≡ (if reads_as key version then some s else lookup version (parse_sqls sqls))
unfolding parse_sqls
lookup-parse_sqls-cons key s sqls version = go (atoi key)
  where
    go :
        (o : Option ℤ)
        → lookup version (elim o as (λ _. Dict ℤ String) [
          | none ↦ parse_sqls sqls
          | some v ↦ insert v s (parse_sqls sqls)
        ])
          ≡ (if elim o as (λ _. Bool) [ none ↦ false | some v ↦ version == v ]
              then some s
              else lookup version (parse_sqls sqls))
    go none = refl
    go (some v) = lookup-insert version v s (parse_sqls sqls)

pub parse_sqls_sound :
    (sqls : Dict String String) (version : ℤ) (sql : String)
    → lookup version (parse_sqls sqls) ≡ some sql
    → (key : String) × (atoi key ≡ some version) × (lookup key sqls ≡ some sql)
parse_sqls_sound [] version sql h =
    absurd (unfold parse_sqls in cc (h, lookup-nil {V = String} version))
parse_sqls_sound ((k, s) ∷ sqls) version sql h = elim (Bool-cases (reads_as k version)) [
  | inl here ↦ (
    k,
    (reads_as_iff k version).0 here,
    ground (arith, lookup-parse_sqls-cons k s sqls version, lookup-cons k k s sqls),
  )
  | inr away ↦
      let (key, p, q) =
        parse_sqls_sound sqls version sql
          (ground (arith, lookup-parse_sqls-cons k s sqls version)) in
      (key, p, ground (arith, lookup-cons key k s sqls, reads_as_iff k version))
]

lookup-tail :
    (j k s : String) {t : String} (sqls : Dict String String)
    → lookup j sqls ≡ some t
    → (u : String) × (lookup j ((k, s) ∷ sqls) ≡ some u)
lookup-tail j k s {t} sqls h = elim (Bool-cases (j == k)) [
  | inl e ↦ (s, ground (arith, lookup-cons j k s sqls))
  | inr n ↦ (t, ground (arith, lookup-cons j k s sqls))
]

Unambiguous-tail :
    (k s : String) (sqls : Dict String String) → Unambiguous ((k, s) ∷ sqls) → Unambiguous sqls
Unambiguous-tail k s sqls once i j _ _ version p q =
    once i j _ _ version (lookup-tail i k s sqls p).1 (lookup-tail j k s sqls q).1

pub parse_sqls_complete :
    (sqls : Dict String String) (key sql : String) (version : ℤ)
    → Unambiguous sqls
    → lookup key sqls ≡ some sql
    → atoi key ≡ some version
    → lookup version (parse_sqls sqls) ≡ some sql
parse_sqls_complete [] key sql version once h a = absurd (cc (h, lookup-nil {V = String} key))
parse_sqls_complete ((k, s) ∷ sqls) key sql version once h a = ground (
  arith,
  lookup-cons key k s sqls,
  lookup-cons k k s sqls,
  lookup-parse_sqls-cons k s sqls version,
  reads_as_iff k version,
  once key k sql s version,
  parse_sqls_complete sqls key sql version (Unambiguous-tail k s sqls once),
)

-- Where no two keys are read as one version, the text that is kept for a version is exactly the one
-- that stands in the map under a key that is read as that version: no other key counts, and no text
-- is lost.
pub parse_sqls_iff :
    (sqls : Dict String String) (version : ℤ) (sql : String)
    → Unambiguous sqls
    → (lookup version (parse_sqls sqls) ≡ some sql)
      ↔ ((key : String) × (atoi key ≡ some version) × (lookup key sqls ≡ some sql))
parse_sqls_iff sqls version sql once = (
  parse_sqls_sound sqls version sql,
  λ (key, p, q). parse_sqls_complete sqls key sql version once q p,
)

Unambiguous-Same : (c d : Dict String String) → Same c d → Unambiguous c → Unambiguous d
Unambiguous-Same c d same once j k s t version p q =
    once j k s t version (same.at j ∙ p) (same.at k ∙ q)

parse_sqls-le :
    (c d : Dict String String) (version : ℤ) (sql : String)
    → Unambiguous d
    → Same c d
    → lookup version (parse_sqls c) ≡ some sql
    → lookup version (parse_sqls d) ≡ some sql
parse_sqls-le c d version sql once same h =
    let (key, p, q) = parse_sqls_sound c version sql h in
    parse_sqls_complete d key sql version once (sym (same.at key) ∙ q) p

options_agree {ℓ} :
    {A : Type ℓ} (a b : Option A)
    → ((x : A) → a ≡ some x → b ≡ some x)
    → ((x : A) → b ≡ some x → a ≡ some x)
    → a ≡ b
options_agree none none f g = refl
options_agree none (some x) f g = g x refl
options_agree (some x) b f g = sym (f x refl)

pub parse_sqls-Same :
    (c d : Dict String String) → Unambiguous c → Same c d → Same (parse_sqls c) (parse_sqls d)
parse_sqls-Same c d once same = record {
  at = λ version.
      options_agree (lookup version (parse_sqls c)) (lookup version (parse_sqls d))
        (λ sql. parse_sqls-le c d version sql (Unambiguous-Same c d same once) same)
        (λ sql. parse_sqls-le d c version sql once (record { at = λ k. sym (same.at k) }));
}

-- If two keys are read as one version and have different texts, then which text is kept depends on
-- the order in which the loop meets the two entries of one and the same map.
pub parse_sqls_depends_on_order :
    (j k s t : String) (version : ℤ)
    → j ≢ k
    → s ≢ t
    → atoi j ≡ some version
    → atoi k ≡ some version
    → let c : Dict String String = (j, s) ∷ (k, t) ∷ [] in
      let d : Dict String String = (k, t) ∷ (j, s) ∷ [] in
      Same c d × (lookup version (parse_sqls c) ≢ lookup version (parse_sqls d))
parse_sqls_depends_on_order j k s t version ne differ p q = (
  record { at = λ i. unfold lookup in ground arith },
  λ e. ground (
    arith,
    lookup-parse_sqls-cons j s ((k, t) ∷ []) version,
    lookup-parse_sqls-cons k t ((j, s) ∷ []) version,
    reads_as_iff j version,
    reads_as_iff k version,
  ),
)
