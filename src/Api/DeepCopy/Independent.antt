-- ===== src/Api/DeepCopy/Independent.antt =====
-- A deep copy is independent of its original.
use pgpilot_operator.Base.{Option, none, List, arith}
use pgpilot_operator.Kube.Meta.{TypeMeta}
use pgpilot_operator.Api.Metrics.{PgpilotMetricLibrary}
use pgpilot_operator.Api.Monitor.{PgpilotMonitor}
use pgpilot_operator.Api.Layout.{Ref, ForeignTypes}
use pgpilot_operator.Api.Memory.{Heap, Mem}
use pgpilot_operator.Api.Memory.Kinds.{library_kind, monitor_kind, list_kind}
use pgpilot_operator.Api.Memory.Makes.{Extends, HasFrom, IsBounded, Later-refl}
use pgpilot_operator.Api.Memory.Copies.{IsCopier, HoldsSome, HoldsRef, some-IsCopier, ref-IsCopier}
use pgpilot_operator.Api.DeepCopy.{Foreign}
use pgpilot_operator.Api.DeepCopy.Pointers.{
  library_copy, monitor_copy, library_list_copy, monitor_list_copy, library_copy_object,
  library_list_copy_object, monitor_copy_object, monitor_list_copy_object,
}
use pgpilot_operator.Api.DeepCopy.Holds.{
  IsForeign, HoldsLibrary, HoldsMonitor, HoldsLibraries, HoldsMonitors,
}
use pgpilot_operator.Api.DeepCopy.Resources.{
  library-IsCopier, monitor-IsCopier, library_list-IsCopier, monitor_list-IsCopier,
}

-- The step from `h` to `k` has made the copy `s` of what `r` leads to, which is `v`. It has changed
-- no cell of `h`. The original is read as `v` in every heap that holds the cells of `h`, and the
-- copy in every heap that holds the new cells: neither sees a write to the cells of the other.
pub record IsIndependent {T : ForeignTypes} {V : Type 0} (P : Heap T → Ref → V → Type 0)
    (h k : Heap T) (r s : Ref) (v : V) : Type 0 where
  pub grows : Extends h k
  pub original : (g : Heap T) → Extends h g → P g r v
  pub copied : (g : Heap T) → HasFrom h.next k g → P g s v

module _ {T : ForeignTypes} where
  IsCopier-IsIndependent :
      {V : Type 0} {P : Heap T → Ref → V → Type 0} {into : Ref → Mem T Ref}
      → IsCopier P into
      → (h : Heap T) (r : Ref) (v : V) → IsBounded h
      → P h r v
      → IsIndependent P h (into r h).1 r (into r h).0 v
  IsCopier-IsIndependent copier h r v bounded p =
      let made = copier.copies h.next h r v (Later-refl h bounded (omega arith)) p in
      record {
        grows = made.later.extends;
        original = λ g more. copier.local h g r v more p;
        copied = made.good;
      }

module _ {T : ForeignTypes} (F : Foreign T) (L : IsForeign T F) where
  -- What a pointer to a monitor leads to, or none for nil.
  abbrev pub AtMonitor : Heap T → Ref → Option (TypeMeta × PgpilotMonitor) → Type 0
  AtMonitor = HoldsRef (HoldsSome (HoldsMonitor L)) monitor_kind none

  -- `DeepCopyObject` of a monitor that is stored in memory, or of nil, returns a copy that holds the
  -- same and is independent of the original, if the deep copies of the fields of other packages are.
  -- What is compared leaves open whether an empty map or slice is nil.
  pub monitor_copy_object-IsIndependent :
      (h : Heap T) (r : Ref) (v : Option (TypeMeta × PgpilotMonitor))
      → IsBounded h
      → AtMonitor h r v
      → let (s, k) = monitor_copy_object F r h in IsIndependent AtMonitor h k r s v
  unfolding monitor_copy_object monitor_copy
  monitor_copy_object-IsIndependent h r v =
      IsCopier-IsIndependent (ref-IsCopier (some-IsCopier (monitor-IsCopier F L)) monitor_kind none)
        h r v

  -- What a pointer to a metric library leads to, or none for nil.
  abbrev pub AtLibrary : Heap T → Ref → Option (TypeMeta × PgpilotMetricLibrary) → Type 0
  AtLibrary = HoldsRef (HoldsSome (HoldsLibrary L)) library_kind none

  -- `DeepCopyObject` of a metric library that is stored in memory, or of nil, returns a copy that holds the
  -- same and is independent of the original, if the deep copies of the fields of other packages are.
  -- What is compared leaves open whether an empty map or slice is nil.
  pub library_copy_object-IsIndependent :
      (h : Heap T) (r : Ref) (v : Option (TypeMeta × PgpilotMetricLibrary))
      → IsBounded h
      → AtLibrary h r v
      → let (s, k) = library_copy_object F r h in IsIndependent AtLibrary h k r s v
  unfolding library_copy_object library_copy
  library_copy_object-IsIndependent h r v =
      IsCopier-IsIndependent (ref-IsCopier (some-IsCopier (library-IsCopier F L)) library_kind none)
        h r v

  -- What a pointer to a list of monitors leads to, or none for nil.
  abbrev pub AtMonitorList :
      Heap T → Ref → Option (TypeMeta × L.ListMeta × List (TypeMeta × PgpilotMonitor)) → Type 0
  AtMonitorList = HoldsRef (HoldsSome (HoldsMonitors L)) list_kind none

  -- `DeepCopyObject` of a list of monitors that is stored in memory, or of nil, returns a copy that holds the
  -- same and is independent of the original, if the deep copies of the fields of other packages are.
  -- What is compared leaves open whether an empty map or slice is nil.
  pub monitor_list_copy_object-IsIndependent :
      (h : Heap T) (r : Ref) (v : Option (TypeMeta × L.ListMeta × List (TypeMeta × PgpilotMonitor)))
      → IsBounded h
      → AtMonitorList h r v
      → let (s, k) = monitor_list_copy_object F r h in IsIndependent AtMonitorList h k r s v
  unfolding monitor_list_copy_object monitor_list_copy
  monitor_list_copy_object-IsIndependent h r v =
      IsCopier-IsIndependent
        (ref-IsCopier (some-IsCopier (monitor_list-IsCopier F L)) list_kind none) h r v

  -- What a pointer to a list of metric libraries leads to, or none for nil.
  abbrev pub AtLibraryList :
      Heap T
      → Ref
      → Option (TypeMeta × L.ListMeta × List (TypeMeta × PgpilotMetricLibrary))
      → Type 0
  AtLibraryList = HoldsRef (HoldsSome (HoldsLibraries L)) list_kind none

  -- `DeepCopyObject` of a list of metric libraries that is stored in memory, or of nil, returns a copy that holds the
  -- same and is independent of the original, if the deep copies of the fields of other packages are.
  -- What is compared leaves open whether an empty map or slice is nil.
  pub library_list_copy_object-IsIndependent :
      (h : Heap T) (r : Ref)
      (v : Option (TypeMeta × L.ListMeta × List (TypeMeta × PgpilotMetricLibrary)))
      → IsBounded h
      → AtLibraryList h r v
      → let (s, k) = library_list_copy_object F r h in IsIndependent AtLibraryList h k r s v
  unfolding library_list_copy_object library_list_copy
  library_list_copy_object-IsIndependent h r v =
      IsCopier-IsIndependent
        (ref-IsCopier (some-IsCopier (library_list-IsCopier F L)) list_kind none) h r v
