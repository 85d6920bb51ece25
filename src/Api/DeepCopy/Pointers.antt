-- ===== src/Api/DeepCopy/Pointers.antt =====
-- api/v1/zz_generated.deepcopy.go: `DeepCopy` of each type, and `DeepCopyObject`.
use pgpilot_operator.Api.Layout.{Ref, ForeignTypes}
use pgpilot_operator.Api.Memory.{Mem, copy_ref}
use pgpilot_operator.Api.Memory.Kinds.{
  credentials_kind, database_kind, definition_kind, grpc_kind, image_kind, library_kind,
  library_spec_kind, library_status_kind, list_kind, metrics_spec_kind, monitor_kind,
  monitor_spec_kind, monitor_status_kind, overrides_kind, prometheus_kind, ref_kind, sinks_kind,
  tls_kind,
}
use pgpilot_operator.Api.DeepCopy.{
  Foreign, credentials_into, tls_into, image_into, ref_into, prometheus_into, database_into,
  grpc_into, definition_into, metrics_spec_into, overrides_into, sinks_into, library_spec_into,
  library_status_into, monitor_status_into, monitor_spec_into, library_into, monitor_into,
  library_list_into, monitor_list_into,
}

-- `if in == nil { return nil }; out := new(T); in.DeepCopyInto(out); return out`
module _ {T : ForeignTypes} where
  unfoldable pub credentials_copy : Ref → Mem T Ref
  credentials_copy = copy_ref credentials_kind credentials_into

  unfoldable pub tls_copy : Ref → Mem T Ref
  tls_copy = copy_ref tls_kind tls_into

  unfoldable pub image_copy : Ref → Mem T Ref
  image_copy = copy_ref image_kind image_into

  unfoldable pub ref_copy : Ref → Mem T Ref
  ref_copy = copy_ref ref_kind ref_into

  unfoldable pub prometheus_copy : Ref → Mem T Ref
  prometheus_copy = copy_ref prometheus_kind prometheus_into

  unfoldable pub database_copy : Ref → Mem T Ref
  database_copy = copy_ref database_kind database_into

  unfoldable pub grpc_copy : Ref → Mem T Ref
  grpc_copy = copy_ref grpc_kind grpc_into

  unfoldable pub definition_copy : Ref → Mem T Ref
  definition_copy = copy_ref definition_kind definition_into

  unfoldable pub metrics_spec_copy : Ref → Mem T Ref
  metrics_spec_copy = copy_ref metrics_spec_kind metrics_spec_into

  unfoldable pub overrides_copy : Ref → Mem T Ref
  overrides_copy = copy_ref overrides_kind overrides_into

  unfoldable pub sinks_copy : Ref → Mem T Ref
  sinks_copy = copy_ref sinks_kind sinks_into

  unfoldable pub library_spec_copy : Ref → Mem T Ref
  library_spec_copy = copy_ref library_spec_kind library_spec_into

module _ {T : ForeignTypes} (F : Foreign T) where
  unfoldable pub library_status_copy : Ref → Mem T Ref
  library_status_copy = copy_ref library_status_kind (library_status_into F)

  unfoldable pub monitor_status_copy : Ref → Mem T Ref
  monitor_status_copy = copy_ref monitor_status_kind (monitor_status_into F)

  unfoldable pub monitor_spec_copy : Ref → Mem T Ref
  monitor_spec_copy = copy_ref monitor_spec_kind (monitor_spec_into F)

  unfoldable pub library_copy : Ref → Mem T Ref
  library_copy = copy_ref library_kind (library_into F)

  unfoldable pub monitor_copy : Ref → Mem T Ref
  monitor_copy = copy_ref monitor_kind (monitor_into F)

  unfoldable pub library_list_copy : Ref → Mem T Ref
  library_list_copy = copy_ref list_kind (library_list_into F)

  unfoldable pub monitor_list_copy : Ref → Mem T Ref
  monitor_list_copy = copy_ref list_kind (monitor_list_into F)

  -- A `runtime.Object` holds the pointer that `DeepCopy` returns, or is nil.
  unfoldable pub library_copy_object : Ref → Mem T Ref
  library_copy_object = library_copy

  unfoldable pub library_list_copy_object : Ref → Mem T Ref
  library_list_copy_object = library_list_copy

  unfoldable pub monitor_copy_object : Ref → Mem T Ref
  monitor_copy_object = monitor_copy

  unfoldable pub monitor_list_copy_object : Ref → Mem T Ref
  monitor_list_copy_object = monitor_list_copy
