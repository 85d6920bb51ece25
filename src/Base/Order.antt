-- ===== src/Base/Order.antt =====
-- The order of texts by their characters, in which `sort.Strings` sorts.
use Prim.Native.Nat.{Ordering, compare as compare_ℕ}
use Prim.Native.Char.{code}
use Prim.Native.String.compare
use Prim.Native.String.{String, compare, then}
use mathlib.Core.Path.{◌≡◌, refl, sym, ◌∙◌, ap, ap₂}
use mathlib.Core.Logic.{◌↔◌, ◌⊎◌, inl, inr}
use mathlib.Core.Bool.{Bool, true, false}
use native.Mathlib.Omega.{arith, compare-lt, compare-eq, compare-gt}
use text.Mathlib.Text.{is_le}
use text.Mathlib.TextEquality.{codes_equal}
use text.Mathlib.TextPositions.{compare_self}
use Prim.Native.Nat.{ℕ, ◌<◌}

abbrev Le : String → String → Type 0
Le String.[] t = Unit
Le (String.◌∷◌ c s) String.[] = ⊥
Le (String.◌∷◌ c s) (String.◌∷◌ d t) = (code c < code d) ⊎ ((code c ≡ code d) × Le s t)

then_le :
    (a b : ℕ) (o p : Ordering) (P : Type 0)
    → compare_ℕ a b ≡ o
    → (is_le p ≡ true) ↔ P
    → (is_le (then o p) ≡ true) ↔ ((a < b) ⊎ ((a ≡ b) × P))
then_le a b Ordering.lt p P e h = (λ _. inl (compare-lt a b e), λ _. refl)
then_le a b Ordering.eq p P e h = (
  λ q. inr (compare-eq a b e, h.0 q),
  λ q. elim q [
    | inl less ↦ absurd (let same = compare-eq a b e in omega (arith, less, same))
    | inr (same, r) ↦ h.1 r
  ],
)
then_le a b Ordering.gt p P e h = (
  λ q. cc,
  λ q.
      let more = compare-gt a b e in
      elim q [
        | inl less ↦ absurd (omega (arith, less, more))
        | inr (same, r) ↦ absurd (omega (arith, same, more))
      ],
)

ordered_iff : (x o : Ordering) (P : Type 0) → x ≡ o → (is_le o ≡ true) ↔ P → (is_le x ≡ true) ↔ P
ordered_iff x o P e h = rw e h

compare_iff : (s t : String) → (is_le (compare s t) ≡ true) ↔ Le s t
compare_iff String.[] String.[] = ordered_iff _ Ordering.eq _ compare.nil-nil (λ _. tt, λ _. refl)
compare_iff String.[] (String.◌∷◌ d t) =
    ordered_iff _ Ordering.lt _ (compare.nil-cons d t) (λ _. tt, λ _. refl)
compare_iff (String.◌∷◌ c s) String.[] =
    ordered_iff _ Ordering.gt _ (compare.cons-nil c s) (λ e. cc, λ e. absurd e)
compare_iff (String.◌∷◌ c s) (String.◌∷◌ d t) =
    ordered_iff _ (then (compare_ℕ (code c) (code d)) (compare s t)) _ (compare.cons-cons c d s t)
      (then_le (code c) (code d) _ (compare s t) (Le s t) refl (compare_iff s t))

Le-total : (s t : String) → Le s t ⊎ Le t s
Le-total String.[] t = inl tt
Le-total (String.◌∷◌ c s) String.[] = inr tt
Le-total (String.◌∷◌ c s) (String.◌∷◌ d t) = go (Le-total s t) (compare_ℕ (code c) (code d)) refl
  where
    go :
        Le s t ⊎ Le t s
        → (o : Ordering) → compare_ℕ (code c) (code d) ≡ o
        → Le (String.◌∷◌ c s) (String.◌∷◌ d t) ⊎ Le (String.◌∷◌ d t) (String.◌∷◌ c s)
    go _ Ordering.lt e = inl (inl (compare-lt _ _ e))
    go _ Ordering.gt e = inr (inl (compare-gt _ _ e))
    go (inl h) Ordering.eq e = inl (inr (compare-eq _ _ e, h))
    go (inr h) Ordering.eq e = inr (inr (sym (compare-eq _ _ e), h))

Le-antisym : (s t : String) → Le s t → Le t s → s ≡ t
Le-antisym String.[] String.[] h k = refl
Le-antisym String.[] (String.◌∷◌ d t) h k = absurd k
Le-antisym (String.◌∷◌ c s) String.[] h k = absurd h
Le-antisym (String.◌∷◌ c s) (String.◌∷◌ d t) (inl less) (inl more) = absurd (omega arith)
Le-antisym (String.◌∷◌ c s) (String.◌∷◌ d t) (inl less) (inr (e, k)) = absurd (omega arith)
Le-antisym (String.◌∷◌ c s) (String.◌∷◌ d t) (inr (e, h)) (inl more) = absurd (omega arith)
Le-antisym (String.◌∷◌ c s) (String.◌∷◌ d t) (inr (e, h)) (inr (_, k)) =
    ap₂ String.◌∷◌ (codes_equal c d (ap (compare_ℕ (code c)) (sym e) ∙ compare_self (code c)))
      (Le-antisym s t h k)

Le-trans : (s t u : String) → Le s t → Le t u → Le s u
Le-trans String.[] t u h k = tt
Le-trans (String.◌∷◌ c s) String.[] u h k = absurd h
Le-trans (String.◌∷◌ c s) (String.◌∷◌ d t) String.[] h k = absurd k
Le-trans (String.◌∷◌ c s) (String.◌∷◌ d t) (String.◌∷◌ e u) (inl less) (inl more) =
    inl (omega arith)
Le-trans (String.◌∷◌ c s) (String.◌∷◌ d t) (String.◌∷◌ e u) (inl less) (inr (q, k)) =
    inl (omega arith)
Le-trans (String.◌∷◌ c s) (String.◌∷◌ d t) (String.◌∷◌ e u) (inr (p, h)) (inl more) =
    inl (omega arith)
Le-trans (String.◌∷◌ c s) (String.◌∷◌ d t) (String.◌∷◌ e u) (inr (p, h)) (inr (q, k)) =
    inr (p ∙ q, Le-trans s t u h k)

-- The test that `sort.Strings` makes.
abbrev pub precedes : String → String → Bool
precedes s t = is_le (compare s t)

pub precedes_total : (s t : String) → precedes s t ≡ false → precedes t s ≡ true
precedes_total s t h = elim (Le-total s t) [
  | inl p ↦ absurd (cc (h, (compare_iff s t).1 p))
  | inr p ↦ (compare_iff t s).1 p
]

pub precedes_antisym : (s t : String) → precedes s t ≡ true → precedes t s ≡ true → s ≡ t
precedes_antisym s t h k = Le-antisym s t ((compare_iff s t).0 h) ((compare_iff t s).0 k)

pub precedes_trans :
    (s t u : String) → precedes s t ≡ true → precedes t u ≡ true → precedes s u ≡ true
precedes_trans s t u h k =
    (compare_iff s u).1 (Le-trans s t u ((compare_iff s t).0 h) ((compare_iff t u).0 k))
