-- ===== src/Api/DeepCopy/Resources.antt =====
-- `DeepCopyInto` and `DeepCopy` of the resources and their lists.
use pgpilot_operator.Base.{Option, none, some, []}
use pgpilot_operator.Api.Layout.{Ref, ForeignTypes}
use pgpilot_operator.Api.Memory.{Heap, copy_ref, copy_each}
use pgpilot_operator.Api.Memory.Kinds.{time_kind, conditions_kind, libraries_kind, monitors_kind}
use pgpilot_operator.Api.Memory.Makes.{Makes, Later, Makes-pure}
use pgpilot_operator.Api.Memory.Copies.{
  IsCopier, HoldsSome, HoldsEach, HoldsRef, each-IsCopier, ref-IsCopier,
}
use pgpilot_operator.Api.DeepCopy.{
  Foreign, copy_time, library_status_into, monitor_status_into, monitor_spec_into, library_into,
  monitor_into, library_list_into, monitor_list_into,
}
use pgpilot_operator.Api.DeepCopy.Holds.{
  IsForeign, HoldsConditions, HoldsLibraryStatus, HoldsMonitorStatus, HoldsMonitorSpec,
  HoldsLibrary, HoldsMonitor, HoldsLibraries, HoldsMonitors,
}
use pgpilot_operator.Api.DeepCopy.Copied.{
  then_copy, done_copy, database-IsCopier, metrics_spec-IsCopier, sinks-IsCopier,
  overrides-IsCopier, library_spec-IsCopier,
}

module _ {T : ForeignTypes} (F : Foreign T) (L : IsForeign T F) where
  conditions-IsCopier :
      IsCopier (HoldsConditions L) (copy_ref conditions_kind (copy_each F.condition_into))
  conditions-IsCopier = ref-IsCopier (each-IsCopier L.condition) conditions_kind []

  time-IsCopier : IsCopier (HoldsRef (HoldsSome L.HoldsTime) time_kind none) (copy_time F)
  unfolding copy_time
  time-IsCopier = record { local = L.time.local; copies = λ n h r v ready p. go n h r v ready p }
    where
      go :
          (n : _) (h : Heap T) (r : Ref) (v : Option _)
          → Later n h h
          → HoldsRef (HoldsSome L.HoldsTime) time_kind none h r v
          → Makes n h (copy_time F r) (λ y g. HoldsRef (HoldsSome L.HoldsTime) time_kind none g y v)
      go n h none v ready p = Makes-pure none ready (λ g. p)
      go n h (some a) v ready p =
          let made = L.time.copies n h (some a) v ready p in
          record { later = made.later; good = made.good }

  pub library_status-IsCopier : IsCopier (HoldsLibraryStatus L) (library_status_into F)
  unfolding library_status_into
  library_status-IsCopier = record {
    local = λ h g x v more p. record {
      plain = p.plain;
      conditions = conditions-IsCopier.local h g _ _ more p.conditions;
    };
    copies = λ n h x v ready p.
        then_copy conditions-IsCopier _ _ _ ready p.conditions
          (λ y0 h0 at0. done_copy _ at0 (λ g p0. record { plain = p.plain; conditions = p0 }));
  }

  pub monitor_status-IsCopier : IsCopier (HoldsMonitorStatus L) (monitor_status_into F)
  unfolding monitor_status_into
  monitor_status-IsCopier = record {
    local = λ h g x v more p. record {
      plain = p.plain;
      last_reconciled = time-IsCopier.local h g _ _ more p.last_reconciled;
      conditions = conditions-IsCopier.local h g _ _ more p.conditions;
    };
    copies = λ n h x v ready p. then_copy time-IsCopier _ _ _ ready p.last_reconciled (λ y0 h0 at0.
        then_copy conditions-IsCopier _ _ _ at0 p.conditions (λ y1 h1 at1.
          done_copy _ at1
            (λ g p1 p0. record { plain = p.plain; last_reconciled = p0; conditions = p1 })));
  }

  pub monitor_spec-IsCopier : IsCopier (HoldsMonitorSpec L) (monitor_spec_into F)
  unfolding monitor_spec_into
  monitor_spec-IsCopier = record {
    local = λ h g x v more p. record {
      image = p.image;
      database = database-IsCopier.local h g _ _ more p.database;
      metrics = metrics_spec-IsCopier.local h g _ _ more p.metrics;
      sinks = sinks-IsCopier.local h g _ _ more p.sinks;
      resources = L.resources.local h g _ _ more p.resources;
      pod_metadata = overrides-IsCopier.local h g _ _ more p.pod_metadata;
      service_metadata = overrides-IsCopier.local h g _ _ more p.service_metadata;
    };
    copies = λ n h x v ready p. then_copy database-IsCopier _ _ _ ready p.database (λ y0 h0 at0.
        then_copy metrics_spec-IsCopier _ _ _ at0 p.metrics (λ y1 h1 at1.
          then_copy sinks-IsCopier _ _ _ at1 p.sinks (λ y2 h2 at2.
            then_copy L.resources _ _ _ at2 p.resources (λ y3 h3 at3.
              then_copy overrides-IsCopier _ _ _ at3 p.pod_metadata (λ y4 h4 at4.
                then_copy overrides-IsCopier _ _ _ at4 p.service_metadata (λ y5 h5 at5.
                  done_copy _ at5 (λ g p5 p4 p3 p2 p1 p0. record {
                    image = p.image;
                    database = p0;
                    metrics = p1;
                    sinks = p2;
                    resources = p3;
                    pod_metadata = p4;
                    service_metadata = p5;
                  })))))));
  }

  pub library-IsCopier : IsCopier (HoldsLibrary L) (library_into F)
  unfolding library_into
  library-IsCopier = record {
    local = λ h g x v more p. record {
      type_meta = p.type_meta;
      object_meta = L.meta.local h g _ _ more p.object_meta;
      spec = library_spec-IsCopier.local h g _ _ more p.spec;
      status = library_status-IsCopier.local h g _ _ more p.status;
    };
    copies = λ n h x v ready p. then_copy L.meta _ _ _ ready p.object_meta (λ y0 h0 at0.
        then_copy library_spec-IsCopier _ _ _ at0 p.spec (λ y1 h1 at1.
          then_copy library_status-IsCopier _ _ _ at1 p.status (λ y2 h2 at2.
            done_copy _ at2 (λ g p2 p1 p0. record {
              type_meta = p.type_meta;
              object_meta = p0;
              spec = p1;
              status = p2;
            }))));
  }

  pub monitor-IsCopier : IsCopier (HoldsMonitor L) (monitor_into F)
  unfolding monitor_into
  monitor-IsCopier = record {
    local = λ h g x v more p. record {
      type_meta = p.type_meta;
      object_meta = L.meta.local h g _ _ more p.object_meta;
      spec = monitor_spec-IsCopier.local h g _ _ more p.spec;
      status = monitor_status-IsCopier.local h g _ _ more p.status;
    };
    copies = λ n h x v ready p. then_copy L.meta _ _ _ ready p.object_meta (λ y0 h0 at0.
        then_copy monitor_spec-IsCopier _ _ _ at0 p.spec (λ y1 h1 at1.
          then_copy monitor_status-IsCopier _ _ _ at1 p.status (λ y2 h2 at2.
            done_copy _ at2 (λ g p2 p1 p0. record {
              type_meta = p.type_meta;
              object_meta = p0;
              spec = p1;
              status = p2;
            }))));
  }

  libraries-IsCopier :
      IsCopier
        (HoldsRef (HoldsEach (HoldsLibrary L)) libraries_kind [])
        (copy_ref libraries_kind (copy_each (library_into F)))
  libraries-IsCopier = ref-IsCopier (each-IsCopier library-IsCopier) libraries_kind []

  pub library_list-IsCopier : IsCopier (HoldsLibraries L) (library_list_into F)
  unfolding library_list_into
  library_list-IsCopier = record {
    local = λ h g x v more p. record {
      type_meta = p.type_meta;
      list_meta = L.list_meta.local h g _ _ more p.list_meta;
      items = libraries-IsCopier.local h g _ _ more p.items;
    };
    copies = λ n h x v ready p. then_copy L.list_meta _ _ _ ready p.list_meta (λ y0 h0 at0.
        then_copy libraries-IsCopier _ _ _ at0 p.items (λ y1 h1 at1.
          done_copy _ at1
            (λ g p1 p0. record { type_meta = p.type_meta; list_meta = p0; items = p1 })));
  }

  monitors-IsCopier :
      IsCopier
        (HoldsRef (HoldsEach (HoldsMonitor L)) monitors_kind [])
        (copy_ref monitors_kind (copy_each (monitor_into F)))
  monitors-IsCopier = ref-IsCopier (each-IsCopier monitor-IsCopier) monitors_kind []

  pub monitor_list-IsCopier : IsCopier (HoldsMonitors L) (monitor_list_into F)
  unfolding monitor_list_into
  monitor_list-IsCopier = record {
    local = λ h g x v more p. record {
      type_meta = p.type_meta;
      list_meta = L.list_meta.local h g _ _ more p.list_meta;
      items = monitors-IsCopier.local h g _ _ more p.items;
    };
    copies = λ n h x v ready p. then_copy L.list_meta _ _ _ ready p.list_meta (λ y0 h0 at0.
        then_copy monitors-IsCopier _ _ _ at0 p.items (λ y1 h1 at1.
          done_copy _ at1
            (λ g p1 p0. record { type_meta = p.type_meta; list_meta = p0; items = p1 })));
  }
