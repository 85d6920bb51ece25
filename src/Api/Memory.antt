-- ===== src/Api/Memory.antt =====
-- Go's memory as a heap of cells, and the copies that `DeepCopyInto` makes of what a field refers to.
pub mod Kinds
pub mod Makes
pub mod Copies
use pgpilot_operator.Base.{
  ℕ, suc, String, ◌≡◌, refl, Option, none, some, List, [], ◌∷◌, if◌then◌else◌, leb, ◌&&◌, string_eq,
  arith,
}
use pgpilot_operator.Base.Dict.{Dict, copy}
use pgpilot_operator.Api.Layout.{Ref, ForeignTypes, Cell}

-- Every address from `next` on is free.
pub record Heap (T : ForeignTypes) : Type 0 where
  pub at : ℕ → Option (Cell T)
  pub next : ℕ

-- How values of one Go type lie in a cell.
pub record Kind (T : ForeignTypes) (A : Type 0) : Type 0 where
  pub wrap : A → Cell T
  pub unwrap : Cell T → Option A
  pub unwrap-wrap : (a : A) → unwrap (wrap a) ≡ some a

abbrev pub Mem : ForeignTypes → Type 0 → Type 0
Mem T A = Heap T → A × Heap T

module _ {T : ForeignTypes} where
  abbrev pub put : Heap T → Cell T → Heap T
  put h c = record {
    at = λ a. if leb a h.next && leb h.next a then some c else h.at a;
    next = suc h.next;
  }

  module _ {A : Type 0} where
    unfoldable pub pure : A → Mem T A
    pure a h = (a, h)

    -- `new` or `make`, and the write of the new cell.
    unfoldable pub alloc : Kind T A → A → Mem T Ref
    alloc k x h = (some h.next, put h (k.wrap x))

    abbrev pub read : Kind T A → Heap T → ℕ → Option A
    read k h a = elim (h.at a) [ none ↦ none | some c ↦ k.unwrap c ]

  module _ {A B : Type 0} where
    infixl 5 ◌>>=◌
    unfoldable pub ◌>>=◌ : Mem T A → (A → Mem T B) → Mem T B
    ◌>>=◌ m f h = let (a, k) = m h in f a k

  module _ {A : Type 0} (k : Kind T A) (into : A → Mem T A) where
    abbrev pub copy_read : Option A → Mem T Ref
    copy_read none = pure none
    copy_read (some x) = do y ← into x; alloc k y

    -- `if in.F != nil { *out = new(T) or make(T, len(*in)); … }`. The copy of the cell is made first
    -- and then put at the new address.
    unfoldable pub copy_ref : Ref → Mem T Ref
    copy_ref none = pure none
    copy_ref (some a) = λ h. copy_read (read k h a) h

  module _ {A : Type 0} (into : A → Mem T A) where
    -- `for i := range *in { (*in)[i].DeepCopyInto(&(*out)[i]) }`
    unfoldable pub copy_each : List A → Mem T (List A)
    copy_each [] = pure []
    copy_each (x ∷ xs) = do y ← into x; ys ← copy_each xs; pure (y ∷ ys)

  -- `for key, val := range *in { (*out)[key] = val }`
  unfoldable pub copy_map : Dict String String → Mem T (Dict String String)
  copy_map d = pure (copy [] d)
