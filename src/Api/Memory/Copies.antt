-- ===== src/Api/Memory/Copies.antt =====
-- The copies of what a field refers to are good copies.
use mathlib.Core.Path.{subst}
use pgpilot_operator.Base.{
  ℕ, String, ◌≡◌, refl, sym, ◌∙◌, ap, Option, none, some, List, [], ◌∷◌, string_eq,
}
use pgpilot_operator.Base.Dict.{Dict, lookup, copy, lookup-copy, lookup-nil, or_else, Same}
use pgpilot_operator.Api.Layout.{Ref, ForeignTypes}
use pgpilot_operator.Api.Memory.{
  Heap, Kind, Mem, pure, read, copy_read, copy_ref, copy_each, copy_map,
}
use pgpilot_operator.Api.Memory.Makes.{
  Extends, Later, Makes, Later-refl, Makes-pure, Makes-bind, Makes-alloc,
}

Same-copy : (d v : Dict String String) → Same d v → Same (copy [] d) v
Same-copy d v same = record {
  at = λ k. lookup-copy k [] d ∙ or_nil (lookup k d) (lookup k []) (lookup-nil k) ∙ same.at k;
}
  where
    or_nil : (a b : Option String) → b ≡ none → or_else a b ≡ a
    or_nil none b e = e
    or_nil (some x) b e = refl

module _ {T : ForeignTypes} where
  -- `P h x v`: in the heap `h`, the value `x` has the content `v`. It has it in every larger heap,
  -- and so has the copy in every heap that holds the new cells.
  pub record IsCopier {R V : Type 0} (P : Heap T → R → V → Type 0) (into : R → Mem T R)
      : Type 0 where
    pub local : (h g : Heap T) (x : R) (v : V) → Extends h g → P h x v → P g x v
    pub copies :
        (n : ℕ) (h : Heap T) (x : R) (v : V)
        → Later n h h
        → P h x v
        → Makes n h (into x) (λ y g. P g y v)

  abbrev pub HoldsFlat : {A : Type 0} → Heap T → A → A → Type 0
  HoldsFlat h x v = x ≡ v

  abbrev pub HoldsMap : Heap T → Dict String String → Dict String String → Type 0
  HoldsMap h d v = Same d v

  module _ {R V : Type 0} (P : Heap T → R → V → Type 0) where
    abbrev pub HoldsSome : Heap T → R → Option V → Type 0
    HoldsSome h x o = (v : V) × (o ≡ some v) × P h x v

    abbrev pub HoldsEach : Heap T → List R → List V → Type 0
    HoldsEach h [] [] = Unit
    HoldsEach h [] (v ∷ vs) = ⊥
    HoldsEach h (x ∷ xs) [] = ⊥
    HoldsEach h (x ∷ xs) (v ∷ vs) = P h x v × HoldsEach h xs vs

    -- `empty` is the content of nil.
    abbrev pub HoldsRef : Kind T R → V → Heap T → Ref → V → Type 0
    HoldsRef k empty h none v = v ≡ empty
    HoldsRef k empty h (some a) v = (x : R) × (h.at a ≡ some (k.wrap x)) × P h x v

  pub flat-IsCopier : {A : Type 0} → IsCopier {V = A} HoldsFlat pure
  flat-IsCopier = record {
    local = λ h g x v more p. p;
    copies = λ n h x v ready p. Makes-pure x ready (λ g. p);
  }

  pub map-IsCopier : IsCopier HoldsMap copy_map
  unfolding copy_map
  map-IsCopier = record {
    local = λ h g x v more p. p;
    copies = λ n h x v ready p. Makes-pure (copy [] x) ready (λ g. Same-copy x v p);
  }

  module _ {R V : Type 0} {P : Heap T → R → V → Type 0} {into : R → Mem T R}
      (copier : IsCopier P into) where
    pub some-IsCopier : IsCopier (HoldsSome P) into
    some-IsCopier = record {
      local = λ h g x o more (v, e, p). (v, e, copier.local h g x v more p);
      copies = λ n h x o ready (v, e, p).
          let made = copier.copies n h x v ready p in
          record { later = made.later; good = λ g has. (v, e, made.good g has) };
    }

    HoldsEach-local :
        (h g : Heap T) (xs : List R) (vs : List V)
        → Extends h g
        → HoldsEach P h xs vs
        → HoldsEach P g xs vs
    HoldsEach-local h g [] [] more p = tt
    HoldsEach-local h g [] (v ∷ vs) more p = p
    HoldsEach-local h g (x ∷ xs) [] more p = p
    HoldsEach-local h g (x ∷ xs) (v ∷ vs) more (p, ps) =
        (copier.local h g x v more p, HoldsEach-local h g xs vs more ps)

    copy_each-Makes :
        (n : ℕ) (h : Heap T) (xs : List R) (vs : List V)
        → Later n h h
        → HoldsEach P h xs vs
        → Makes n h (copy_each into xs) (λ ys g. HoldsEach P g ys vs)
    unfolding copy_each
    copy_each-Makes n h [] [] ready p = Makes-pure [] ready (λ g. tt)
    copy_each-Makes n h [] (v ∷ vs) ready p = absurd p
    copy_each-Makes n h (x ∷ xs) [] ready p = absurd p
    copy_each-Makes n h (x ∷ xs) (v ∷ vs) ready (p, ps) =
        Makes-bind (into x) _ (copier.copies n h x v ready p) (λ y k later.
          let at_k = Later-refl k later.bounded later.beyond in
          Makes-bind (copy_each into xs) _
            (copy_each-Makes n k xs vs at_k (HoldsEach-local h k xs vs later.extends ps))
            (λ ys l more.
              Makes-pure (y ∷ ys) (Later-refl l more.bounded more.beyond) (λ g qs q. (q, qs))))

    pub each-IsCopier : IsCopier (HoldsEach P) (copy_each into)
    each-IsCopier = record { local = HoldsEach-local; copies = copy_each-Makes }

    module _ (k : Kind T R) (empty : V) where
      HoldsRef-local :
          (h g : Heap T) (r : Ref) (v : V)
          → Extends h g
          → HoldsRef P k empty h r v
          → HoldsRef P k empty g r v
      HoldsRef-local h g none v more p = p
      HoldsRef-local h g (some a) v more (x, e, p) =
          (x, more.keeps a (k.wrap x) e, copier.local h g x v more p)

      read-eq-some : (h : Heap T) (a : ℕ) (x : R) → h.at a ≡ some (k.wrap x) → read k h a ≡ some x
      read-eq-some h a x e =
          ap (λ o. elim o as (λ _. Option R) [ none ↦ none | some c ↦ k.unwrap c ]) e
          ∙ k.unwrap-wrap x

      copy_ref-Makes :
          (n : ℕ) (h : Heap T) (r : Ref) (v : V)
          → Later n h h
          → HoldsRef P k empty h r v
          → Makes n h (copy_ref k into r) (λ s g. HoldsRef P k empty g s v)
      unfolding copy_ref
      copy_ref-Makes n h none v ready p = Makes-pure none ready (λ g. p)
      copy_ref-Makes n h (some a) v ready (x, e, p) =
          let made =
            subst (λ o. Makes n h (copy_read k into o) (λ s g. HoldsRef P k empty g s v))
              (sym (read-eq-some h a x e))
              (Makes-bind (into x) _ (copier.copies n h x v ready p) (λ y l later.
                Makes-alloc k y (Later-refl l later.bounded later.beyond)
                  (λ b g q held. (y, q, held)))) in
          record { later = made.later; good = made.good }

      pub ref-IsCopier : IsCopier (HoldsRef P k empty) (copy_ref k into)
      ref-IsCopier = record { local = HoldsRef-local; copies = copy_ref-Makes }
