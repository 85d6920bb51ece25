-- ===== src/Tests/Copying.antt =====
-- Deep copies in a small heap.
use pgpilot_operator.Base.{refl, some, [], ◌∷◌, string_eq}
use pgpilot_operator.Api.Layout.{Ref}
use pgpilot_operator.Api.Memory.Makes.{IsBounded, put-IsBounded}
use pgpilot_operator.Api.DeepCopy.Pointers.{
  library_copy_object, library_list_copy_object, monitor_copy_object, monitor_list_copy_object,
  credentials_copy, tls_copy, image_copy, ref_copy, prometheus_copy, database_copy, grpc_copy,
  definition_copy, metrics_spec_copy, overrides_copy, sinks_copy, library_spec_copy,
  library_status_copy, monitor_status_copy, monitor_spec_copy,
}
use pgpilot_operator.Api.DeepCopy.Holds.{
  HoldsLibrary, HoldsMonitor, HoldsDatabase, HoldsGrpc, HoldsDefinition, HoldsMetricsSpec,
  HoldsOverrides, HoldsSinks, HoldsLibrarySpec, HoldsLibraryStatus, HoldsMonitorStatus,
  HoldsMonitorSpec,
}
use pgpilot_operator.Api.DeepCopy.Independent.{
  IsIndependent, AtMonitor, AtLibrary, AtMonitorList, AtLibraryList,
  monitor_copy_object-IsIndependent, library_copy_object-IsIndependent,
  monitor_list_copy_object-IsIndependent, library_list_copy_object-IsIndependent,
}
use pgpilot_operator.Api.Memory.Copies.{HoldsFlat}
use pgpilot_operator.Api.Memory.Kinds.{
  credentials_kind, tls_kind, image_kind, ref_kind, prometheus_kind, database_kind, grpc_kind,
  definition_kind, metrics_spec_kind, overrides_kind, sinks_kind, library_spec_kind,
  library_status_kind, monitor_status_kind, monitor_spec_kind,
}
use pgpilot_operator.Api.DeepCopy.Parts.{CopiesPointer, parts-IsCopier}
use pgpilot_operator.Tests.Structs.{
  simple, simple_copies, lawful, secret, type_of_monitor, monitor_at, monitor_held, library_at,
  library_held, empty, heap,
}

heap-IsBounded : IsBounded heap
heap-IsBounded = put-IsBounded _ _ (
    put-IsBounded _ _ (
      put-IsBounded _ _ (
        put-IsBounded _ _ (
          put-IsBounded _ _ (
            put-IsBounded _ _ (
              put-IsBounded _ _
                (put-IsBounded _ _ (put-IsBounded empty _ (record { free = λ a le. refl })))))))))

monitor-HoldsMonitor : HoldsMonitor lawful heap monitor_at (type_of_monitor, monitor_held)
monitor-HoldsMonitor = record {
  type_meta = refl;
  object_meta = refl;
  spec = record {
    image = refl;
    database = record {
      plain = (refl, refl, refl, refl, refl, refl);
      credentials_secret = (secret, refl, (secret, refl, refl));
      custom_tags = (_, refl, record { at = λ k. refl });
    };
    metrics = record { plain = refl; from_libraries = refl; custom = refl };
    sinks = record { prometheus = refl; grpc = refl };
    resources = refl;
    pod_metadata = record { labels = refl; annotations = (_, refl, record { at = λ k. refl }) };
    service_metadata = record { labels = refl; annotations = refl };
  };
  status = record { plain = (refl, refl, refl, refl); last_reconciled = refl; conditions = refl };
}

library-HoldsLibrary : HoldsLibrary lawful heap library_at (type_of_monitor, library_held)
library-HoldsLibrary = record {
  type_meta = refl;
  object_meta = refl;
  spec = record {
    metrics = (
      _,
      refl,
      (
        record {
          plain = (refl, refl, refl, refl, refl, refl);
          interval = refl;
          sqls = (_, refl, record { at = λ k. refl });
          gauges = refl;
        },
        tt,
      ),
    );
  };
  status = record { plain = refl; conditions = refl };
}

monitor_copy_object-IsIndependent_example :
    let r : Ref = some 2 in
    let (s, k) = monitor_copy_object simple_copies r heap in
    IsIndependent (AtMonitor simple_copies lawful) heap k r s (some (type_of_monitor, monitor_held))
monitor_copy_object-IsIndependent_example =
    monitor_copy_object-IsIndependent simple_copies lawful heap (some 2)
      (some (type_of_monitor, monitor_held)) heap-IsBounded
      (monitor_at, refl, (_, refl, monitor-HoldsMonitor))

library_copy_object-IsIndependent_example :
    let r : Ref = some 4 in
    let (s, k) = library_copy_object simple_copies r heap in
    IsIndependent (AtLibrary simple_copies lawful) heap k r s (some (type_of_monitor, library_held))
library_copy_object-IsIndependent_example =
    library_copy_object-IsIndependent simple_copies lawful heap (some 4)
      (some (type_of_monitor, library_held)) heap-IsBounded
      (library_at, refl, (_, refl, library-HoldsLibrary))

monitor_list_copy_object-IsIndependent_example :
    let r : Ref = some 6 in
    let (s, k) = monitor_list_copy_object simple_copies r heap in
    IsIndependent
      (AtMonitorList simple_copies lawful)
      heap
      k
      r
      s
      (some (type_of_monitor, "", (type_of_monitor, monitor_held) ∷ []))
monitor_list_copy_object-IsIndependent_example =
    monitor_list_copy_object-IsIndependent simple_copies lawful heap (some 6)
      (some (type_of_monitor, "", (type_of_monitor, monitor_held) ∷ [])) heap-IsBounded
      (
        _,
        refl,
        (
          _,
          refl,
          record {
            type_meta = refl;
            list_meta = refl;
            items = (_, refl, (monitor-HoldsMonitor, tt));
          },
        ),
      )

library_list_copy_object-IsIndependent_example :
    let r : Ref = some 8 in
    let (s, k) = library_list_copy_object simple_copies r heap in
    IsIndependent
      (AtLibraryList simple_copies lawful)
      heap
      k
      r
      s
      (some (type_of_monitor, "", (type_of_monitor, library_held) ∷ []))
library_list_copy_object-IsIndependent_example =
    library_list_copy_object-IsIndependent simple_copies lawful heap (some 8)
      (some (type_of_monitor, "", (type_of_monitor, library_held) ∷ [])) heap-IsBounded
      (
        _,
        refl,
        (
          _,
          refl,
          record {
            type_meta = refl;
            list_meta = refl;
            items = (_, refl, (library-HoldsLibrary, tt));
          },
        ),
      )

parts-IsCopier_example :
    CopiesPointer (HoldsFlat {T = simple}) credentials_kind credentials_copy
    × CopiesPointer (HoldsFlat {T = simple}) tls_kind tls_copy
    × CopiesPointer (HoldsFlat {T = simple}) image_kind image_copy
    × CopiesPointer (HoldsFlat {T = simple}) ref_kind ref_copy
    × CopiesPointer (HoldsFlat {T = simple}) prometheus_kind prometheus_copy
    × CopiesPointer (HoldsDatabase {T = simple}) database_kind database_copy
    × CopiesPointer (HoldsGrpc {T = simple}) grpc_kind grpc_copy
    × CopiesPointer (HoldsDefinition {T = simple}) definition_kind definition_copy
    × CopiesPointer (HoldsMetricsSpec {T = simple}) metrics_spec_kind metrics_spec_copy
    × CopiesPointer (HoldsOverrides {T = simple}) overrides_kind overrides_copy
    × CopiesPointer (HoldsSinks {T = simple}) sinks_kind sinks_copy
    × CopiesPointer (HoldsLibrarySpec {T = simple}) library_spec_kind library_spec_copy
    × CopiesPointer
        (HoldsLibraryStatus lawful)
        library_status_kind
        (library_status_copy simple_copies)
    × CopiesPointer
        (HoldsMonitorStatus lawful)
        monitor_status_kind
        (monitor_status_copy simple_copies)
    × CopiesPointer (HoldsMonitorSpec lawful) monitor_spec_kind (monitor_spec_copy simple_copies)
parts-IsCopier_example = parts-IsCopier simple_copies lawful
