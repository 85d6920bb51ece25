-- ===== src/Controller/Watch/Arrival.antt =====
-- How a change of a library reaches the monitors that name it.
use mathlib.Core.List.{Memᴰ}
use mathlib.Core.List.Memᴰ
use mathlib.Core.Option
use mathlib.Core.Path.{subst}
use pgpilot_operator.Base.{
  ◌≡◌, refl, sym, ◌∙◌, ap, inl, inr, Bool, Option, none, some, List, [], ◌∷◌, Error, arith,
  string_eq,
}
use pgpilot_operator.Base.Dict.{or_else, lookup}
use pgpilot_operator.Kube.Meta.{NamespacedName}
use pgpilot_operator.Api.Metrics.{MetricDefinition, PgpilotMetricLibrary}
use pgpilot_operator.Api.Monitor.{LibraryRef, PgpilotMonitor}
use pgpilot_operator.Builder.Library.{Library}
use pgpilot_operator.Builder.Metrics.{MetricDef, metric_def, merge_metrics}
use pgpilot_operator.Builder.Metrics.Merge.{
  shared_definitions, all_definitions, last_named, merge_metrics-last_wins,
}
use pgpilot_operator.Controller.Cluster.{Cluster}
use pgpilot_operator.Controller.Session.{Session, Request, Answer, done, failed, panic}
use pgpilot_operator.Controller.Triple.{Post, Fetched, Refused}
use pgpilot_operator.Controller.Checks.{key_of}
use pgpilot_operator.Controller.Monitor.Validation.{ResolvedAll}
use pgpilot_operator.Controller.Monitor.Outcome.{Delivered}
use pgpilot_operator.Controller.Watch.{library_object, library_to_monitors}
use pgpilot_operator.Controller.Watch.Enqueued.{key, Names, Enqueued, library_to_monitors-Enqueued}

or_else-some {ℓ} :
    {A : Type ℓ} (o b : Option A) (x : A) → b ≡ some x → (w : A) × (or_else o b ≡ some w)
or_else-some none b x e = (x, e)
or_else-some (some w) b x e = (w, refl)

last_named-some :
    (mds : List MetricDefinition) (md : MetricDefinition)
    → Memᴰ md mds
    → (w : MetricDefinition) × (last_named md.name mds ≡ some w)
last_named-some [] md p = elim p [ ]
last_named-some (x ∷ mds) md (Memᴰ.head e) =
    or_else-some (last_named md.name mds) _ x
      (ground (arith, ap (λ (y : MetricDefinition). y.name) e))
last_named-some (x ∷ mds) md (Memᴰ.tail p) = let (w, e) = last_named-some mds md p in (w, rw e refl)

Memᴰ-shared_definitions :
    (ls : List PgpilotMetricLibrary) (l : PgpilotMetricLibrary) (md : MetricDefinition)
    → Memᴰ l ls
    → Memᴰ md l.spec.metrics
    → Memᴰ md (shared_definitions ls)
Memᴰ-shared_definitions [] l md p q = elim p [ ]
Memᴰ-shared_definitions (x ∷ ls) l md (Memᴰ.head e) q =
    Memᴰ.append_left (shared_definitions ls) (subst (λ y. Memᴰ md y.spec.metrics) e q)
Memᴰ-shared_definitions (x ∷ ls) l md (Memᴰ.tail p) q =
    Memᴰ.append_right x.spec.metrics (Memᴰ-shared_definitions ls l md p q)

module _ (C : Cluster) where
  resolved_ref :
      (m : PgpilotMonitor) (refs : List LibraryRef) (ls : List PgpilotMetricLibrary)
      (ref : LibraryRef)
      → ResolvedAll C m refs ls
      → Memᴰ ref refs
      → (x : PgpilotMetricLibrary) × Memᴰ x ls × Fetched (C.get_library (key_of m ref.name)) x
  resolved_ref m [] ls ref h p = elim p [ ]
  resolved_ref m (r ∷ refs) [] ref h p = absurd h
  resolved_ref m (r ∷ refs) (x ∷ ls) ref (f, h) (Memᴰ.head e) =
      (x, Memᴰ.head refl, subst (λ y. Fetched (C.get_library (key_of m y.name)) x) (sym e) f)
  resolved_ref m (r ∷ refs) (x ∷ ls) ref (f, h) (Memᴰ.tail p) =
      let (y, q, g) = resolved_ref m refs ls ref h p in (y, Memᴰ.tail q, g)

  delivered_library :
      (lib : Library) (enabled : Bool) (req : NamespacedName) (before now : List Request)
      (d : Delivered C lib enabled req before now) (l : PgpilotMetricLibrary)
      (md : MetricDefinition)
      → Memᴰ l d.libraries
      → Memᴰ md l.spec.metrics
      → (def : MetricDef) × (lookup md.name
            (merge_metrics lib d.monitor.spec.metrics d.libraries).definitions
          ≡ some def)
  delivered_library lib enabled req before now d l md p q =
      let spec = d.monitor.spec.metrics in
      let (w, e) =
        last_named-some (all_definitions spec d.libraries) md
          (Memᴰ.append_left spec.custom (Memᴰ-shared_definitions d.libraries l md p q)) in
      (
        metric_def w,
        (merge_metrics-last_wins lib spec d.libraries md.name).0 ∙ ap (Option.map metric_def) e,
      )

  -- The list of monitors is granted and has `m` on it.
  abbrev pub Lists : PgpilotMetricLibrary → PgpilotMonitor → Type 0
  Lists l m =
      ((e : Error) → ¬ Refused (C.list_monitors l.object_meta.namespace) e)
      × ((ms : List PgpilotMonitor)
          → Fetched (C.list_monitors l.object_meta.namespace) ms
          → Memᴰ m ms)

  enqueued_key :
      (l : PgpilotMetricLibrary) (m : PgpilotMonitor) (reqs : List NamespacedName)
      → Lists l m
      → Names l.object_meta.name m
      → Enqueued C l reqs
      → Memᴰ (key m) reqs
  enqueued_key l m reqs (granted, listed) names (inl (ms, fetched, exactly)) =
      (exactly (key m)).1 (m, listed ms fetched, names, refl)
  enqueued_key l m reqs (granted, listed) names (inr (e, refused, _)) = absurd (granted e refused)

  -- If a library is changed, and the list of the monitors of its namespace has a monitor that names
  -- the library, then the monitor is enqueued. If a run for that request then puts the children of
  -- that monitor in place, as its spec is, and the API server answers with the changed library alone
  -- where it is read, then every metric of the library is defined in the merge that the applied
  -- ConfigMap was built of.
  pub library_to_monitors-Delivered :
      (lib : Library) (l : PgpilotMetricLibrary) (m : PgpilotMonitor) (s : Session C)
      → Lists l m
      → Names l.object_meta.name m
      → (enabled : Bool) (before now : List Request)
        (d : Delivered C lib enabled (key m) before now)
      → d.monitor.spec ≡ m.spec
      → ((x : PgpilotMetricLibrary)
          → Fetched (C.get_library (key_of d.monitor l.object_meta.name)) x
          → x ≡ l)
      → (md : MetricDefinition) → Memᴰ md l.spec.metrics
      → ((reqs : List NamespacedName) × ((library_to_monitors C (library_object l) s).0 ≡ done reqs)
          × Memᴰ (key m) reqs)
        × ((def : MetricDef) × (lookup md.name
                (merge_metrics lib d.monitor.spec.metrics d.libraries).definitions
              ≡ some def))
  library_to_monitors-Delivered lib l m s lists names enabled before now d same current md q =
      let (ref, p, e) = names in
      let (x, r, f) =
        resolved_ref d.monitor d.monitor.spec.metrics.from_libraries d.libraries ref d.resolved
          (subst (λ spec. Memᴰ ref spec.metrics.from_libraries) (sym same) p) in
      let x_is_l = current x (subst (λ n. Fetched (C.get_library (key_of d.monitor n)) x) e f) in
      (
        go _ _ (library_to_monitors-Enqueued C (library_object l) s),
        delivered_library lib enabled (key m) before now d l md
            (subst (λ y. Memᴰ y d.libraries) x_is_l r) q,
      )
    where
      go :
          (a : Answer (List NamespacedName)) (t : List Request)
          → Post (λ reqs now. Enqueued C l reqs × (now ≡ s.requests)) (λ _. ⊥) a t
          → (reqs : List NamespacedName) × (a ≡ done reqs) × Memᴰ (key m) reqs
      go (done reqs) t (enqueued, _) = (reqs, refl, enqueued_key l m reqs lists names enqueued)
      go (failed e) t h = absurd h
      go panic t h = absurd h
