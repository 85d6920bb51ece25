-- ===== src/Api/DeepCopy/Parts.antt =====
-- `DeepCopy` of the structs that the resources are made of.
use pgpilot_operator.Base.{none}
use pgpilot_operator.Api.Layout.{Ref, ForeignTypes}
use pgpilot_operator.Api.Memory.{Heap, Mem, Kind}
use pgpilot_operator.Api.Memory.Kinds.{
  credentials_kind, tls_kind, image_kind, ref_kind, prometheus_kind, database_kind, grpc_kind,
  definition_kind, metrics_spec_kind, overrides_kind, sinks_kind, library_spec_kind,
  library_status_kind, monitor_status_kind, monitor_spec_kind,
}
use pgpilot_operator.Api.Memory.Copies.{
  IsCopier, HoldsFlat, HoldsSome, HoldsRef, flat-IsCopier, some-IsCopier, ref-IsCopier,
}
use pgpilot_operator.Api.DeepCopy.{
  Foreign, credentials_into, tls_into, image_into, ref_into, prometheus_into,
}
use pgpilot_operator.Api.DeepCopy.Pointers.{
  credentials_copy, tls_copy, image_copy, ref_copy, prometheus_copy, database_copy, grpc_copy,
  definition_copy, metrics_spec_copy, overrides_copy, sinks_copy, library_spec_copy,
  library_status_copy, monitor_status_copy, monitor_spec_copy,
}
use pgpilot_operator.Api.DeepCopy.Holds.{
  IsForeign, HoldsDatabase, HoldsGrpc, HoldsDefinition, HoldsMetricsSpec, HoldsOverrides,
  HoldsSinks, HoldsLibrarySpec, HoldsLibraryStatus, HoldsMonitorStatus, HoldsMonitorSpec,
}
use pgpilot_operator.Api.DeepCopy.Copied.{
  database-IsCopier, grpc-IsCopier, definition-IsCopier, metrics_spec-IsCopier, overrides-IsCopier,
  sinks-IsCopier, library_spec-IsCopier,
}
use pgpilot_operator.Api.DeepCopy.Resources.{
  library_status-IsCopier, monitor_status-IsCopier, monitor_spec-IsCopier,
}

module _ {T : ForeignTypes} where
  -- From a pointer, or nil, to a struct that holds what `P` tells.
  abbrev pub CopiesPointer :
      {R V : Type 0} → (Heap T → R → V → Type 0) → Kind T R → (Ref → Mem T Ref) → Type 0
  CopiesPointer P k copy = IsCopier (HoldsRef (HoldsSome P) k none) copy

-- `DeepCopy` of each struct that a resource is made of returns, for a pointer to a struct in memory
-- or for nil, a pointer that leads to the same content in every heap that holds the new cells, and
-- changes no cell, if the deep copies of the fields of other packages do.
pub parts-IsCopier :
    {T : ForeignTypes} (F : Foreign T) (L : IsForeign T F)
    → CopiesPointer (HoldsFlat {T = T}) credentials_kind credentials_copy
      × CopiesPointer (HoldsFlat {T = T}) tls_kind tls_copy
      × CopiesPointer (HoldsFlat {T = T}) image_kind image_copy
      × CopiesPointer (HoldsFlat {T = T}) ref_kind ref_copy
      × CopiesPointer (HoldsFlat {T = T}) prometheus_kind prometheus_copy
      × CopiesPointer (HoldsDatabase {T = T}) database_kind database_copy
      × CopiesPointer (HoldsGrpc {T = T}) grpc_kind grpc_copy
      × CopiesPointer (HoldsDefinition {T = T}) definition_kind definition_copy
      × CopiesPointer (HoldsMetricsSpec {T = T}) metrics_spec_kind metrics_spec_copy
      × CopiesPointer (HoldsOverrides {T = T}) overrides_kind overrides_copy
      × CopiesPointer (HoldsSinks {T = T}) sinks_kind sinks_copy
      × CopiesPointer (HoldsLibrarySpec {T = T}) library_spec_kind library_spec_copy
      × CopiesPointer (HoldsLibraryStatus L) library_status_kind (library_status_copy F)
      × CopiesPointer (HoldsMonitorStatus L) monitor_status_kind (monitor_status_copy F)
      × CopiesPointer (HoldsMonitorSpec L) monitor_spec_kind (monitor_spec_copy F)
unfolding credentials_copy tls_copy image_copy ref_copy prometheus_copy database_copy grpc_copy
    definition_copy metrics_spec_copy overrides_copy sinks_copy library_spec_copy
    library_status_copy monitor_status_copy monitor_spec_copy credentials_into tls_into image_into
    ref_into prometheus_into
parts-IsCopier F L = (
  ref-IsCopier (some-IsCopier flat-IsCopier) credentials_kind none,
  ref-IsCopier (some-IsCopier flat-IsCopier) tls_kind none,
  ref-IsCopier (some-IsCopier flat-IsCopier) image_kind none,
  ref-IsCopier (some-IsCopier flat-IsCopier) ref_kind none,
  ref-IsCopier (some-IsCopier flat-IsCopier) prometheus_kind none,
  ref-IsCopier (some-IsCopier database-IsCopier) database_kind none,
  ref-IsCopier (some-IsCopier grpc-IsCopier) grpc_kind none,
  ref-IsCopier (some-IsCopier definition-IsCopier) definition_kind none,
  ref-IsCopier (some-IsCopier metrics_spec-IsCopier) metrics_spec_kind none,
  ref-IsCopier (some-IsCopier overrides-IsCopier) overrides_kind none,
  ref-IsCopier (some-IsCopier sinks-IsCopier) sinks_kind none,
  ref-IsCopier (some-IsCopier library_spec-IsCopier) library_spec_kind none,
  ref-IsCopier (some-IsCopier (library_status-IsCopier F L)) library_status_kind none,
  ref-IsCopier (some-IsCopier (monitor_status-IsCopier F L)) monitor_status_kind none,
  ref-IsCopier (some-IsCopier (monitor_spec-IsCopier F L)) monitor_spec_kind none,
)
