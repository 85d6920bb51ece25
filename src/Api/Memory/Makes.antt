-- ===== src/Api/Memory/Makes.antt =====
-- What a copy makes: a value that is read alike in every heap that holds the new cells.
use pgpilot_operator.Base.{ℕ, ◌≤◌, ◌≡◌, none, some, string_eq, arith}
use pgpilot_operator.Api.Layout.{Ref, ForeignTypes, Cell}
use pgpilot_operator.Api.Memory.{Heap, Kind, Mem, put, pure, alloc, ◌>>=◌}

module _ {T : ForeignTypes} where
  -- Every cell of the one heap is in the other.
  pub record Extends (h g : Heap T) : Type 0 where
    pub keeps : (a : ℕ) (c : Cell T) → h.at a ≡ some c → g.at a ≡ some c

  -- Every cell of the one heap from `n` on is in the other.
  pub record HasFrom (n : ℕ) (h g : Heap T) : Type 0 where
    pub keeps : (a : ℕ) (c : Cell T) → n ≤ a → h.at a ≡ some c → g.at a ≡ some c

  -- The heap is empty from `next` on.
  pub record IsBounded (h : Heap T) : Type 0 where
    pub free : (a : ℕ) → h.next ≤ a → h.at a ≡ none

  pub record Later (n : ℕ) (h k : Heap T) : Type 0 where
    pub extends : Extends h k
    pub bounded : IsBounded k
    pub beyond : n ≤ k.next

  -- From `h`, the action adds cells only, from `n` on, and its result is good in every heap that
  -- holds those cells, whatever that heap holds below `n`.
  pub record Makes {A : Type 0} (n : ℕ) (h : Heap T) (m : Mem T A) (Good : A → Heap T → Type 0)
      : Type 0 where
    pub later : Later n h (m h).1
    pub good : (g : Heap T) → HasFrom n (m h).1 g → Good (m h).0 g

  Extends-put : (h : Heap T) (c : Cell T) → IsBounded h → Extends h (put h c)
  Extends-put h c bounded = record { keeps = λ a d e. ground (arith, bounded.free a) }

  put-at : (h : Heap T) (c : Cell T) → (put h c).at h.next ≡ some c
  put-at h c = ground arith

  pub put-IsBounded : (h : Heap T) (c : Cell T) → IsBounded h → IsBounded (put h c)
  put-IsBounded h c bounded = record { free = λ a le. ground (arith, bounded.free a) }

  pub Extends-refl : (h : Heap T) → Extends h h
  Extends-refl h = record { keeps = λ a c e. e }

  pub Later-refl : {n : ℕ} (h : Heap T) → IsBounded h → n ≤ h.next → Later n h h
  Later-refl h bounded le = record { extends = Extends-refl h; bounded = bounded; beyond = le }

  pub Later-trans : {n : ℕ} {h k l : Heap T} → Later n h k → Later n k l → Later n h l
  Later-trans p q = record {
    extends = record { keeps = λ a c e. q.extends.keeps a c (p.extends.keeps a c e) };
    bounded = q.bounded;
    beyond = q.beyond;
  }

  pub Makes-pure :
      {A : Type 0} {n : ℕ} {h : Heap T} {Good : A → Heap T → Type 0} (a : A)
      → Later n h h
      → ((g : Heap T) → Good a g)
      → Makes n h (pure a) Good
  unfolding pure
  Makes-pure a ready h = record { later = ready; good = λ g _. h g }

  pub Makes-bind :
      {A B : Type 0} {n : ℕ} {h : Heap T} {P : A → Heap T → Type 0} {Q : B → Heap T → Type 0}
      (m : Mem T A) (f : A → Mem T B)
      → Makes n h m P
      → ((a : A) (k : Heap T) → Later n h k → Makes n k (f a) (λ b g. P a g → Q b g))
      → Makes n h (m >>= f) Q
  unfolding ◌>>=◌
  Makes-bind {n} {h} m f made next =
      let (a, k) = m h in
      let rest = next a k made.later in
      record {
        later = Later-trans made.later rest.later;
        good = λ g has. rest.good g has (
            made.good g
              (record { keeps = λ b c le e. has.keeps b c le (rest.later.extends.keeps b c e) }));
      }

  pub Makes-alloc :
      {A : Type 0} {n : ℕ} {h : Heap T} {Good : Ref → Heap T → Type 0} (k : Kind T A) (x : A)
      → Later n h h
      → ((a : ℕ) (g : Heap T) → g.at a ≡ some (k.wrap x) → Good (some a) g)
      → Makes n h (alloc k x) Good
  unfolding alloc
  Makes-alloc {n} {h} k x ready good = record {
    later = record {
      extends = Extends-put h (k.wrap x) ready.bounded;
      bounded = put-IsBounded h (k.wrap x) ready.bounded;
      beyond = omega (arith, ready.beyond);
    };
    good = λ g has. good h.next g (has.keeps h.next (k.wrap x) ready.beyond (put-at h (k.wrap x)));
  }
