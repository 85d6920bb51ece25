-- ===== src/Base/Dict.antt =====
-- Go's maps as association lists. A `range` loop meets the entries in an order that Go leaves open:
-- here from the last of the list to the first. A read of a missing key gives `none`, and a nil map is
-- the empty list.
pub mod SameBy
use pgpilot_operator.Base.{
  ◌≡◌, refl, Option, none, some, List, [], ◌∷◌, arith, Eq, ◌==◌, if◌then◌else◌,
}

abbrev pub Dict {ℓ κ} : Type ℓ → Type κ → Type (ℓ ⊔ κ)
Dict K V = List (K × V)

abbrev pub or_else {ℓ} : {A : Type ℓ} → Option A → Option A → Option A
or_else none b = b
or_else (some a) b = some a

module _ {ℓ κ} {K : Type ℓ} {V : Type κ} ⦃e : Eq K⦄ where
  -- `v, ok := d[k]`
  unfoldable pub lookup : K → Dict K V → Option V
  lookup k [] = none
  lookup k ((j, v) ∷ d) = if k == j then some v else lookup k d

  -- `d[k] = v`
  unfoldable pub insert : K → V → Dict K V → Dict K V
  insert k v [] = (k, v) ∷ []
  insert k v ((j, w) ∷ d) = if k == j then (k, v) ∷ d else (j, w) ∷ insert k v d

  -- `maps.Copy(dst, src)`
  unfoldable pub copy : Dict K V → Dict K V → Dict K V
  unfolding insert
  copy dst [] = dst
  copy dst ((k, v) ∷ src) = insert k v (copy dst src)

  -- Each key is listed once, as in every Go map.
  abbrev pub NodupKeys : Dict K V → Type κ
  NodupKeys [] = Unit
  NodupKeys ((k, _) ∷ d) = (lookup k d ≡ none) × NodupKeys d

  -- The same map, whatever the order of its entries.
  pub record Same (c d : Dict K V) : Type (ℓ ⊔ κ) where
    pub at : (k : K) → lookup k c ≡ lookup k d

  pub lookup-nil : (k : K) → lookup k [] ≡ none
  unfolding lookup
  lookup-nil k = refl

  pub lookup-cons :
      (j k : K) (v : V) (d : Dict K V)
      → lookup j ((k, v) ∷ d) ≡ (if j == k then some v else lookup j d)
  unfolding lookup
  lookup-cons j k v d = refl

  pub lookup-cons_self : (k : K) (v : V) (d : Dict K V) → lookup k ((k, v) ∷ d) ≡ some v
  unfolding lookup
  lookup-cons_self k v d = ground arith

  pub lookup-insert :
      (j k : K) (v : V) (d : Dict K V)
      → lookup j (insert k v d) ≡ (if j == k then some v else lookup j d)
  unfolding insert lookup
  lookup-insert j k v [] = refl
  lookup-insert j k v (_ ∷ d) = ground (arith, lookup-insert j k v d)

  -- The entries of the source win.
  pub lookup-copy :
      (j : K) (dst src : Dict K V) → lookup j (copy dst src) ≡ or_else (lookup j src) (lookup j dst)
  unfolding copy lookup
  lookup-copy j dst [] = refl
  lookup-copy j dst ((k, v) ∷ src) =
      ground (arith, lookup-insert j k v (copy dst src), lookup-copy j dst src)

  pub insert-NodupKeys : (k : K) (v : V) (d : Dict K V) → NodupKeys d → NodupKeys (insert k v d)
  unfolding insert
  insert-NodupKeys k v [] _ = (lookup-nil k, tt)
  insert-NodupKeys k v ((j, _) ∷ d) (fresh, u) =
      ground (arith, insert-NodupKeys k v d u, lookup-insert j k v d)

  pub copy-NodupKeys : (dst src : Dict K V) → NodupKeys dst → NodupKeys (copy dst src)
  unfolding copy
  copy-NodupKeys dst [] u = u
  copy-NodupKeys dst ((k, v) ∷ src) u = insert-NodupKeys k v _ (copy-NodupKeys dst src u)
