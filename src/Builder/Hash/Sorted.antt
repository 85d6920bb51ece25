-- ===== src/Builder/Hash/Sorted.antt =====
-- The sorted keys of a map do not depend on the order in which the loop of `contentHash` meets them.
use mathlib.Core.List.{Memᴰ}
use mathlib.Core.List.Memᴰ
use pgpilot_operator.Base.{
  String, ◌≡◌, refl, sym, ◌∙◌, ap, ◌↔◌, ◌⊎◌, inl, inr, Bool-cases, none, some, List, [], ◌∷◌, ◌==◌,
  string_eq, if◌then◌else◌, arith,
}
use pgpilot_operator.Base.Dict.{Dict, lookup, NodupKeys, Same, lookup-cons, lookup-cons_self}
use pgpilot_operator.Base.Dict.SameBy.{has_items-Same}
use pgpilot_operator.Base.Order.{precedes, precedes_total, precedes_antisym, precedes_trans}
use pgpilot_operator.Builder.Hash.{insert_sorted, sort_strings, keys}

insert_sorted_comm :
    (a b : String) (ks : List String)
    → insert_sorted a (insert_sorted b ks) ≡ insert_sorted b (insert_sorted a ks)
unfolding insert_sorted
insert_sorted_comm a b [] = ground (arith, precedes_total a b, precedes_antisym a b)
insert_sorted_comm a b (k ∷ ks) = ground (
  arith,
  precedes_total a b,
  precedes_antisym a b,
  precedes_trans a b k,
  precedes_trans b a k,
  insert_sorted_comm a b ks,
)

module _ {V : Type 0} where
  -- The map without a key.
  abbrev remove : String → Dict String V → Dict String V
  remove k [] = []
  remove k ((j, v) ∷ d) = let rest = remove k d in if k == j then d else (j, v) ∷ rest

  sort_keys-remove :
      (k : String) (v : V) (d : Dict String V)
      → lookup k d ≡ some v
      → sort_strings (keys d) ≡ insert_sorted k (sort_strings (keys (remove k d)))
  unfolding lookup keys sort_strings
  sort_keys-remove k v [] h = cc
  sort_keys-remove k v ((j, w) ∷ d) h = elim (Bool-cases (k == j)) [
    | inl here ↦ ground arith
    | inr away ↦
        ground
          (arith, sort_keys-remove k v d, insert_sorted_comm j k (sort_strings (keys (remove k d))))
  ]

  lookup-remove :
      (j k : String) (d : Dict String V)
      → NodupKeys d
      → lookup j (remove k d) ≡ (if j == k then none else lookup j d)
  unfolding lookup
  lookup-remove j k [] u = ground arith
  lookup-remove j k ((i, v) ∷ d) (fresh, u) = ground (arith, lookup-remove j k d u)

  remove-NodupKeys : (k : String) (d : Dict String V) → NodupKeys d → NodupKeys (remove k d)
  remove-NodupKeys k [] u = tt
  remove-NodupKeys k ((i, v) ∷ d) (fresh, u) =
      ground (arith, remove-NodupKeys k d u, lookup-remove i k d u)

  pub sort_keys-Same :
      (c d : Dict String V)
      → NodupKeys c
      → NodupKeys d
      → Same c d
      → sort_strings (keys c) ≡ sort_strings (keys d)
  unfolding keys sort_strings
  sort_keys-Same [] [] u w same = refl
  sort_keys-Same [] ((k, v) ∷ d) u w same = cc (has_items-Same [] ((k, v) ∷ d) same)
  sort_keys-Same ((k, v) ∷ c) d (fresh, u) w same =
      let rest : Same c (remove k d) = record {
        at = λ j. ground (arith, lookup-remove j k d w, same.at j, lookup-cons j k v c);
      } in
      ap (insert_sorted k) (sort_keys-Same c (remove k d) u (remove-NodupKeys k d w) rest)
      ∙ sym (sort_keys-remove k v d (sym (same.at k) ∙ lookup-cons_self k v c))

Memᴰ-insert_sorted :
    (j k : String) (ks : List String) → Memᴰ j (insert_sorted k ks) ↔ ((j ≡ k) ⊎ Memᴰ j ks)
unfolding insert_sorted
Memᴰ-insert_sorted j k [] =
    (λ m. Memᴰ.cases_cons m, λ h. elim h [ inl e ↦ Memᴰ.head e | inr m ↦ Memᴰ.tail m ])
Memᴰ-insert_sorted j k (i ∷ ks) = elim (Bool-cases (precedes k i)) [
  | inl before ↦
      rw before (λ m. Memᴰ.cases_cons m, λ h. elim h [ inl e ↦ Memᴰ.head e | inr m ↦ Memᴰ.tail m ])
  | inr after ↦ rw after (
    λ m. elim (Memᴰ.cases_cons m) [
      | inl e ↦ inr (Memᴰ.head e)
      | inr n ↦ elim ((Memᴰ-insert_sorted j k ks).0 n) [ inl e ↦ inl e | inr o ↦ inr (Memᴰ.tail o) ]
    ],
    λ h. elim h [
      | inl e ↦ Memᴰ.tail ((Memᴰ-insert_sorted j k ks).1 (inl e))
      | inr m ↦ elim (Memᴰ.cases_cons m) [
        | inl e ↦ Memᴰ.head e
        | inr n ↦ Memᴰ.tail ((Memᴰ-insert_sorted j k ks).1 (inr n))
      ]
    ],
  )
]

abbrev pub Has : String → Dict String String → Type 0
Has k d = (v : String) × (lookup k d ≡ some v)

-- The sorted keys are those of the map.
pub sorted_keys_iff :
    (k : String) (d : Dict String String) → Memᴰ k (sort_strings (keys d)) ↔ Has k d
unfolding sort_strings keys lookup
sorted_keys_iff k [] = (λ m. absurd (Memᴰ.not-nil m), λ (v, e). cc)
sorted_keys_iff k ((j, v) ∷ d) = elim (Bool-cases (k == j)) [
  | inl here ↦ (
    λ m. (v, rw here refl),
    λ h. (Memᴰ-insert_sorted k j (sort_strings (keys d))).1 (inl (ground arith)),
  )
  | inr away ↦ (
    λ m. elim ((Memᴰ-insert_sorted k j (sort_strings (keys d))).0 m) [
      | inl e ↦ absurd (ground arith)
      | inr n ↦ let (w, q) = (sorted_keys_iff k d).0 n in (w, rw away q)
    ],
    λ (w, q).
        (Memᴰ-insert_sorted k j (sort_strings (keys d))).1
          (inr ((sorted_keys_iff k d).1 (w, rw away at q))),
  )
]
