-- ===== src/Base/Dict/SameBy.antt =====
-- Maps that have the same keys and related values, whatever the order of their entries.
use pgpilot_operator.Base.{
  ◌≡◌, refl, ap, Bool-cases, inl, inr, Option, none, some, [], ◌∷◌, Eq, ◌==◌, has_items, arith,
}
use pgpilot_operator.Base.Dict.{
  Dict, or_else, lookup, insert, copy, Same, lookup-nil, lookup-cons_self, lookup-insert,
  lookup-copy,
}

abbrev pub Both {ℓ} : {A : Type ℓ} → (A → A → Type 0) → Option A → Option A → Type 0
Both R none none = Unit
Both R none (some y) = ⊥
Both R (some x) none = ⊥
Both R (some x) (some y) = R x y

pub or_else-Both {ℓ} :
    {A : Type ℓ} (R : A → A → Type 0) (a b c d : Option A)
    → Both R a b
    → Both R c d
    → Both R (or_else a c) (or_else b d)
or_else-Both R none none c d h k = k
or_else-Both R none (some y) c d h k = absurd h
or_else-Both R (some x) none c d h k = absurd h
or_else-Both R (some x) (some y) c d h k = h

module _ {ℓ κ} {K : Type ℓ} {V : Type κ} ⦃e : Eq K⦄ (R : V → V → Type 0) where
  pub record SameBy (c d : Dict K V) : Type ℓ where
    pub at : (k : K) → Both R (lookup k c) (lookup k d)

  pub SameBy-nil : SameBy [] []
  unfolding lookup
  SameBy-nil = record { at = λ k. tt }

  pub insert-SameBy :
      (k : K) (v w : V) (c d : Dict K V) → R v w → SameBy c d → SameBy (insert k v c) (insert k w d)
  insert-SameBy k v w c d r same = record {
    at = λ j.
        rw (lookup-insert, lookup-insert)
          (elim (Bool-cases (j == k)) [ inl here ↦ rw here r | inr away ↦ rw away (same.at j) ]);
  }

  pub copy-SameBy : (a b c d : Dict K V) → SameBy a b → SameBy c d → SameBy (copy a c) (copy b d)
  copy-SameBy a b c d same more = record {
    at = λ j.
        rw (lookup-copy, lookup-copy)
          (or_else-Both R (lookup j c) (lookup j d) (lookup j a) (lookup j b) (more.at j)
            (same.at j));
  }

  pub has_items-SameBy : (c d : Dict K V) → SameBy c d → has_items c ≡ has_items d
  has_items-SameBy [] [] same = refl
  has_items-SameBy [] ((k, v) ∷ d) same = absurd (rw (lookup-nil, lookup-cons_self) at (same.at k))
  has_items-SameBy ((k, v) ∷ c) [] same = absurd (rw (lookup-nil, lookup-cons_self) at (same.at k))
  has_items-SameBy (_ ∷ c) (_ ∷ d) same = refl

  pub SameBy-refl : (d : Dict K V) → ((v : V) → R v v) → SameBy d d
  SameBy-refl d r = record { at = λ k. go (lookup k d) }
    where
      go : (o : Option V) → Both R o o
      go none = tt
      go (some v) = r v

module _ {ℓ κ} {K : Type ℓ} {V : Type κ} ⦃e : Eq K⦄ where
  pub insert-Same : (k : K) (v : V) (c d : Dict K V) → Same c d → Same (insert k v c) (insert k v d)
  insert-Same k v c d same = record {
    at = λ j. ground (arith, same.at j, lookup-insert j k v c, lookup-insert j k v d);
  }

  pub copy-Same : (a c d : Dict K V) → Same c d → Same (copy a c) (copy a d)
  copy-Same a c d same = record {
    at = λ k. rw (lookup-copy, lookup-copy) (ap (λ o. or_else o (lookup k a)) (same.at k));
  }

  pub has_items-Same : (c d : Dict K V) → Same c d → has_items c ≡ has_items d
  has_items-Same [] [] same = refl
  has_items-Same [] ((k, v) ∷ d) same =
      absurd (cc (same.at k, lookup-nil {V = V} k, lookup-cons_self k v d))
  has_items-Same ((k, v) ∷ c) [] same =
      absurd (cc (same.at k, lookup-nil {V = V} k, lookup-cons_self k v c))
  has_items-Same (_ ∷ c) (_ ∷ d) same = refl
