-- ===== src/Controller/Monitor/Liveness.antt =====
-- A reconcile against an API server that grants every request.
use Prim.Native.String.{len}
use pgpilot_operator.Base.{
  ◌≤◌, String, ◌≡◌, refl, sym, ◌∙◌, ap, Bool, false, List, [], ◌∷◌, Error, Result, ok, err, inl,
  inr,
}
use pgpilot_operator.Kube.Meta.{ObjectMeta, NamespacedName}
use pgpilot_operator.Api.Metrics.{PgpilotMetricLibrary}
use pgpilot_operator.Api.Monitor.{LibraryRef, PgpilotMonitor}
use pgpilot_operator.Kube.Objects.{ConfigMap}
use pgpilot_operator.Builder.Library.{Library}
use pgpilot_operator.Builder.Metrics.{merge_metrics}
use pgpilot_operator.Builder.ConfigMap.{build_config_map}
use pgpilot_operator.Builder.Secrecy.{HasCredentials}
use pgpilot_operator.Controller.Cluster.{Cluster, Object, IsLawful, Retried, last, again}
use pgpilot_operator.Controller.Session.{Session, Request, Answer, done, failed, panic, CtrlResult}
use pgpilot_operator.Controller.Client.{write_status, status_attempt}
use pgpilot_operator.Controller.Triple.{Post, Fetched, Refused}
use pgpilot_operator.Controller.Monitor.{is_deleted, reconcile}
use pgpilot_operator.Controller.Checks.{key_of}
use pgpilot_operator.Controller.Monitor.Applied.{
  Cause, refused_read, refused_update, not_owned, refused_apply, refused_replicas, refused_status,
}
use pgpilot_operator.Controller.Monitor.Validation.{
  ResolvedAll, Unresolved, Blocked, no_source, no_secret, no_library,
}
use pgpilot_operator.Controller.Monitor.Outcome.{
  Current, Delivered, Idle, absent, deleted, blocked, Outcome, Failed,
}
use pgpilot_operator.Controller.Monitor.Contract.{reconcile-Outcome}

-- The call is granted in every world.
abbrev pub Granted : {W A : Type 0} → (W → Result A × W) → Type 0
Granted {W} {A} f = (w : W) → (a : A) × ((f w).0 ≡ ok a)

-- The API server grants every request, and the monitor that it answers can be served: it is not being
-- deleted, has credentials, and its ConfigMap can be built of the libraries that it names.
pub record Serves (C : Cluster) (lib : Library) (req : NamespacedName) : Type 0 where
  pub reads : (key : NamespacedName) → Granted (C.get_monitor key)
  pub updates : (m : PgpilotMonitor) → Granted (C.update_monitor m)
  pub secrets : (key : NamespacedName) → Granted (C.get_secret key)
  pub libraries : (key : NamespacedName) → Granted (C.get_library key)
  pub replicas : (key : NamespacedName) → Granted (C.get_ready_replicas key)
  pub applies : (o : Object) → Granted (C.apply o)
  pub writes : (m : PgpilotMonitor) → Granted (C.update_status m)
  pub owners :
      (owner meta : ObjectMeta) → (x : ObjectMeta) × (C.set_controller_reference owner meta ≡ ok x)
  pub alive :
      (m : PgpilotMonitor)
      → Fetched (C.get_monitor req) m
      → is_deleted m.object_meta.deletion_timestamp ≡ false
  pub usable : (m : PgpilotMonitor) → Current C lib req m → HasCredentials m.spec.database
  pub builds :
      (m : PgpilotMonitor) (ls : List PgpilotMetricLibrary)
      → Current C lib req m
      → ResolvedAll C m m.spec.metrics.from_libraries ls
      → (out : ConfigMap × String) × (build_config_map lib m (merge_metrics lib m.spec.metrics ls)
          ≡ ok out)

Granted-not_Refused :
    {W A : Type 0} (f : W → Result A × W) (e : Error) → Granted f → Refused f e → ⊥
Granted-not_Refused f e granted (w, q) = let (a, p) = granted w in absurd (cc (p, q))

module _ (C : Cluster) (lib : Library) (req : NamespacedName) (serves : Serves C lib req) where
  write_status-ok :
      (m : PgpilotMonitor) (found : Result PgpilotMonitor) (latest : PgpilotMonitor) (t : Session C)
      → found ≡ ok latest
      → (write_status C m found t).0 ≡ ok tt
  write_status-ok m (err e) latest t h = cc
  write_status-ok m (ok x) latest t h = (serves.writes (record x { status = m.status }) t.world).1

  status_attempt-ok : (m : PgpilotMonitor) (s : Session C) → (status_attempt C m s).0 ≡ ok tt
  unfolding status_attempt
  status_attempt-ok m s =
      let key : NamespacedName = record {
        name = m.object_meta.name;
        namespace = m.object_meta.namespace;
      } in
      let (latest, e) = serves.reads key s.world in write_status-ok m _ latest _ e

  Retried-ok :
      (m : PgpilotMonitor) {s : Session C} {out : Result (Unit {0}) × Session C}
      → Retried (status_attempt C m) s out
      → out.0 ≡ ok tt
  Retried-ok m {s} (last e) = ap (λ o. o.0) (sym e) ∙ status_attempt-ok m s
  Retried-ok m {s} (again x e c more) = Retried-ok m more

  no_Cause : IsLawful C → Cause C lib → ⊥
  no_Cause lawful (refused_read key e r _) =
      Granted-not_Refused (C.get_monitor key) e (serves.reads key) r
  no_Cause lawful (refused_update m e r) =
      Granted-not_Refused (C.update_monitor m) e (serves.updates m) r
  no_Cause lawful (not_owned owner meta e q) =
      let (x, p) = serves.owners owner meta in absurd (cc (p, q))
  no_Cause lawful (refused_apply o e r) = Granted-not_Refused (C.apply o) e (serves.applies o) r
  no_Cause lawful (refused_replicas key e r) =
      Granted-not_Refused (C.get_ready_replicas key) e (serves.replicas key) r
  no_Cause lawful (refused_status m e (s, q)) =
      absurd (cc (Retried-ok m (lawful.retry (Session C) (status_attempt C m) s), q))

  no_Unresolved : (m : PgpilotMonitor) (refs : List LibraryRef) → Unresolved C m refs → ⊥
  no_Unresolved m [] h = h
  no_Unresolved m (r ∷ refs) (inl (e, h)) =
      Granted-not_Refused (C.get_library (key_of m r.name)) e (serves.libraries (key_of m r.name)) h
  no_Unresolved m (r ∷ refs) (inr h) = no_Unresolved m refs h

  no_Blocked : (m : PgpilotMonitor) → Current C lib req m → Blocked C m → ⊥
  no_Blocked m current (no_source none_given) = none_given (serves.usable m current)
  no_Blocked m current (no_secret ref e named r) =
      Granted-not_Refused (C.get_secret (key_of m ref.name)) e (serves.secrets (key_of m ref.name))
        r
  no_Blocked m current (no_library h) = no_Unresolved m m.spec.metrics.from_libraries h

  no_Idle : (before now : List Request) (result : CtrlResult) → Idle C lib req before now result → ⊥
  no_Idle before now _ (absent e r _ _) =
      Granted-not_Refused (C.get_monitor req) e (serves.reads req) r
  no_Idle before now _ (deleted m fetched gone _ _) = absurd (cc (serves.alive m fetched, gone))
  no_Idle before now _ (blocked m current h _) = no_Blocked m current h

  no_Failed : IsLawful C → (before now : List Request) → Failed C lib req before now → ⊥
  no_Failed lawful before now (inl p) = no_Cause lawful p.cause
  no_Failed lawful before now (inr u) =
      let (out, p) = serves.builds u.monitor u.libraries u.current u.resolved in
      absurd (cc (p, u.failed))

  -- If the API server grants every request, and answers with a monitor that can be served, then a run
  -- of `Reconcile` returns without an error and has put all children of that monitor in place.
  pub reconcile-Delivered :
      (lawful : IsLawful C)
      → ((x : String) → 12 ≤ len (lib.hex_digest x))
      → (enabled : Bool) (s : Session C)
      → let (a, t) = reconcile C lib enabled req s in
        (result : CtrlResult) × (a ≡ done result)
        × Delivered C lib enabled req s.requests t.requests
  reconcile-Delivered lawful long enabled s =
      go _ _ (reconcile-Outcome C lib lawful long enabled req s)
    where
      go :
          (a : Answer CtrlResult) (now : List Request)
          → Post (Outcome C lib enabled req s.requests) (Failed C lib req s.requests) a now
          → (result : CtrlResult) × (a ≡ done result) × Delivered C lib enabled req s.requests now
      go (done r) now (inl idle) = absurd (no_Idle s.requests now r idle)
      go (done r) now (inr delivered) = (r, refl, delivered)
      go (failed e) now h = absurd (no_Failed lawful s.requests now h)
      go panic now h = absurd h
