-- ===== src/Controller/Monitor/Steady/Runs.antt =====
-- A whole run of `Reconcile` where nothing has changed.
use mathlib.Core.Option.{some-injective}
use mathlib.Core.Path.{subst}
use Prim.Native.String.{len}
use pgpilot_operator.Base.{
  ◌≤◌, String, ◌≡◌, ◌≢◌, sym, ◌∙◌, ap, Bool, some, List, All-map, if◌then◌else◌, ok, ok-injective,
  arith,
}
use pgpilot_operator.Base.Int.{ℤ, is_positive}
use pgpilot_operator.Kube.Meta.{NamespacedName, status_true, status_false}
use pgpilot_operator.Kube.Objects.{ConfigMap, Deployment}
use pgpilot_operator.Api.Metrics.{PgpilotMetricLibrary}
use pgpilot_operator.Api.Monitor.{PgpilotMonitorStatus, PgpilotMonitor}
use pgpilot_operator.Builder.Library.{Library}
use pgpilot_operator.Builder.Metrics.{merge_metrics}
use pgpilot_operator.Builder.ConfigMap.{build_config_map}
use pgpilot_operator.Builder.Deployment.{build_deployment}
use pgpilot_operator.Controller.Cluster.{Cluster, Object, IsLawful}
use pgpilot_operator.Controller.Session.{
  Session, Request, CtrlResult, update_request, apply_request, status_request,
  library_status_request, event_request, EventType,
}
use pgpilot_operator.Controller.Triple.{Post, Post-map, Fetched}
use pgpilot_operator.Controller.Monitor.{reconcile}
use pgpilot_operator.Controller.Monitor.Applied.{owned}
use pgpilot_operator.Controller.Monitor.Report.{Turned, turned_ready, turned_unready}
use pgpilot_operator.Controller.Monitor.Validation.{ResolvedAll}
use pgpilot_operator.Controller.Monitor.Outcome.{Current, carried, marked}
use pgpilot_operator.Controller.Monitor.Statuses.{
  Tells, Observed, Says, says_no_source, says_no_secret, says_no_library, says_observed, News,
  new_config, new_pod, secret_lost, library_lost,
}
use pgpilot_operator.Controller.Monitor.Statuses.Account.{
  ChildOf, Applies, releases, marks, Told, Written,
}
use pgpilot_operator.Controller.Monitor.Statuses.Runs.{reconcile-Written}
use pgpilot_operator.Controller.Monitor.Steady.{renewed, Follows, Unchanged, Quiet, Unmoved}
use pgpilot_operator.Controller.Monitor.Steady.Renewed.{
  ResolvedAll-renewed, Unresolved-renewed, build_config_map-renewed, build_deployment-renewed,
  ChildOf-renewed,
}

Turned-differs :
    (was ready : Bool) (kind : EventType) (reason : String)
    → Turned was ready kind reason
    → was ≢ ready
Turned-differs was ready _ _ (turned_ready p q) e = ground (arith, p, q, e)
Turned-differs was ready _ _ (turned_unready p q) e = ground (arith, p, q, e)

module _ (C : Cluster) (lib : Library) (enabled : Bool) (req : NamespacedName) (m : PgpilotMonitor)
    (st : PgpilotMonitorStatus) (seen : Observed C lib m st)
    (same : Unchanged C lib enabled req m st seen) where
  Current-renewed :
      (x : PgpilotMonitor)
      → Current C lib req x
      → (later : PgpilotMonitorStatus) × (version : String) × (fields : List String) × Follows st
          later
        × (x ≡ renewed m later version fields)
  Current-renewed _ (carried x fetched alive has) = (same.monitor x fetched).1
  Current-renewed x (marked x0 _ fetched alive lacks f) =
      absurd (ground (arith, (same.monitor x0 fetched).0, lacks))

  module _ (later : PgpilotMonitorStatus) (version : String) (fields : List String)
      (follows : Follows st later) where
    abbrev now : PgpilotMonitor
    now = renewed m later version fields

    same_libraries :
        (ls : List PgpilotMetricLibrary)
        → ResolvedAll C now now.spec.metrics.from_libraries ls
        → ls ≡ seen.libraries
    same_libraries ls h =
        same.libraries ls (ResolvedAll-renewed C lib m later version fields _ ls h)

    same_hash :
        (ls : List PgpilotMetricLibrary) (cm : ConfigMap) (hash : String)
        → ResolvedAll C now now.spec.metrics.from_libraries ls
        → build_config_map lib now (merge_metrics lib now.spec.metrics ls) ≡ ok (cm, hash)
        → hash ≡ st.config_hash
    same_hash ls cm hash resolved built =
        ap (λ o. o.1)
          (ok-injective (
            sym built
            ∙ build_config_map-renewed C lib m later version fields _
            ∙ ap (λ x. build_config_map lib m (merge_metrics lib m.spec.metrics x))
                (same_libraries ls resolved)
            ∙ seen.built))

    same_deployment :
        (ls : List PgpilotMetricLibrary) (hash : String) (dep : Deployment)
        → ls ≡ seen.libraries
        → hash ≡ st.config_hash
        → build_deployment now (merge_metrics lib now.spec.metrics ls) hash ≡ some dep
        → dep ≡ seen.dep
    same_deployment ls hash dep e h deployed = some-injective _ _ (
        sym deployed
        ∙ build_deployment-renewed C lib m later version fields _ hash
        ∙ (λ i. build_deployment m (merge_metrics lib m.spec.metrics (e i)) (h i))
        ∙ seen.deployed)

    same_replicas :
        (ls : List PgpilotMetricLibrary) (cm : ConfigMap) (hash : String) (dep : Deployment) (n : ℤ)
        → ResolvedAll C now now.spec.metrics.from_libraries ls
        → build_config_map lib now (merge_metrics lib now.spec.metrics ls) ≡ ok (cm, hash)
        → build_deployment now (merge_metrics lib now.spec.metrics ls) hash ≡ some dep
        → Fetched
            (C.get_ready_replicas
              (record { name = dep.object_meta.name; namespace = dep.object_meta.namespace }))
            n
        → n ≡ seen.replicas
    same_replicas ls cm hash dep n resolved built deployed fetched = same.replicas n (
        subst
          (λ (d : Deployment).
            Fetched
              (C.get_ready_replicas
                (record { name = d.object_meta.name; namespace = d.object_meta.namespace }))
              n)
          (same_deployment ls hash dep (same_libraries ls resolved)
            (same_hash ls cm hash resolved built) deployed)
          fetched)

    Quiet-Observed :
        (w : PgpilotMonitor)
        → Observed C lib now w.status
        → Quiet C lib enabled req m st seen (status_request w)
    Quiet-Observed w o =
        let e : o.replicas ≡ seen.replicas =
          same_replicas o.libraries o.cm _ o.dep o.replicas o.resolved o.built o.deployed
            o.fetched in
        (
          same_hash o.libraries o.cm _ o.resolved o.built,
          o.flag ∙ ap is_positive e ∙ sym seen.flag,
          o.generation ∙ sym seen.generation,
          (
            _,
            _,
            seen.ready,
            subst
                (λ n.
                  Tells "Ready" (if is_positive n then status_true else status_false)
                    (if is_positive n then "PodRunning" else "PodNotReady") w.status)
                e o.ready,
          ),
          (_, _, seen.generated, o.generated),
          (_, _, seen.reachable, o.reachable),
        )

    Quiet-Says :
        (w : PgpilotMonitor)
        → Says C lib now w.status
        → Quiet C lib enabled req m st seen (status_request w)
    Quiet-Says w (says_no_source none _ _) = absurd (none same.credentials)
    Quiet-Says w (says_no_secret ref e named refused _ _ _) =
        absurd (same.secret ref e named refused)
    Quiet-Says w (says_no_library missing _ _ _) =
        absurd (same.granted (Unresolved-renewed C lib m later version fields _ missing))
    Quiet-Says w (says_observed o) = Quiet-Observed w o

    not-News : (kind : EventType) (reason : String) → ¬ News C lib now kind reason
    not-News _ _ (new_config ls cm hash resolved built differs) =
        differs (same_hash ls cm hash resolved built ∙ sym (follows.0))
    not-News _ _ (new_pod ls cm hash dep n kind reason resolved built deployed fetched turned) =
        Turned-differs later.ready (is_positive n) kind reason turned (
          follows.1
          ∙ seen.flag
          ∙ ap is_positive (sym (same_replicas ls cm hash dep n resolved built deployed fetched)))
    not-News _ _ (secret_lost ref e named refused) = same.secret ref e named refused
    not-News _ _ (library_lost missing) =
        same.granted (Unresolved-renewed C lib m later version fields _ missing)

  Applies-Quiet :
      (o : Object)
      → Applies C lib enabled req o
      → Quiet C lib enabled req m st seen (apply_request o)
  Applies-Quiet o a =
      let (later, version, fields, follows, e) = Current-renewed a.monitor a.current in
      let resolved =
        subst (λ y. ResolvedAll C y y.spec.metrics.from_libraries a.libraries) e a.resolved in
      let called_for = subst (λ y. ChildOf C lib enabled y a.libraries a.child) e a.called_for in
      (
        version,
        fields,
        a.child,
        subst (λ ls. ChildOf C lib enabled m ls a.child)
            (same_libraries later version fields follows _ resolved)
            (ChildOf-renewed C lib m later version fields enabled a.libraries a.child called_for),
        subst (λ y. owned C y.object_meta a.child ≡ ok o) e a.owned_by,
      )

  Told-Quiet : (r : Request) → Told C lib enabled req r → Quiet C lib enabled req m st seen r
  Told-Quiet (status_request w) (x, current, says, _) =
      let (later, version, fields, follows, e) = Current-renewed x current in
      Quiet-Says later version fields follows w (subst (λ y. Says C lib y w.status) e says)
  Told-Quiet (event_request about kind reason message) (x, current, news, _) =
      let (later, version, fields, follows, e) = Current-renewed x current in
      not-News later version fields follows kind reason
        (subst (λ y. News C lib y kind reason) e news)
  Told-Quiet (apply_request o) told = Applies-Quiet o told
  Told-Quiet (update_request w) (releases x fetched gone has e) =
      let (_, (_, _, _, _, q)) = same.monitor x fetched in
      let alive = same.alive in
      absurd (ground (arith, alive, ap (λ y. y.object_meta.deletion_timestamp) q, gone))
  Told-Quiet (update_request w) (marks x fetched alive lacks e) =
      absurd (ground (arith, (same.monitor x fetched).0, lacks))
  Told-Quiet (library_status_request l) told = told

  Written-Unmoved :
      (before sent : List Request)
      → Written C lib enabled req before sent
      → Unmoved C lib enabled req m st seen before sent
  Written-Unmoved before sent w = record {
    trace = w.trace;
    split = w.split;
    quiet =
        All-map (Told C lib enabled req) (Quiet C lib enabled req m st seen) w.trace Told-Quiet
          w.told;
  }

  -- One run, however it ends, is such.
  pub reconcile-Unmoved :
      IsLawful C
      → ((x : String) → 12 ≤ len (lib.hex_digest x))
      → (s : Session C)
      → let (a, t) = reconcile C lib enabled req s in
        Post
          (λ _. Unmoved C lib enabled req m st seen s.requests)
          (Unmoved C lib enabled req m st seen s.requests)
          a
          t.requests
  reconcile-Unmoved lawful long s =
      let (a, t) = reconcile C lib enabled req s in
      let earlier = s.requests in
      Post-map {A = CtrlResult} (λ _. Written C lib enabled req earlier)
        (λ _. Unmoved C lib enabled req m st seen earlier) (Written C lib enabled req earlier)
        (Unmoved C lib enabled req m st seen earlier) a t.requests
        (λ _. Written-Unmoved earlier t.requests) (Written-Unmoved earlier t.requests)
        (reconcile-Written C lib lawful long enabled req s)
