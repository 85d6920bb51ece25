-- ===== src/Controller/Monitor/Applied.antt =====
-- One object applied for its owner.
use pgpilot_operator.Base.{
  ℕ, suc, ◌≤◌, String, ◌≡◌, refl, false, List, [], ◌∷◌, ◌++◌, Error, Result, ok, err,
  ◌>>=◌ as ◌>>>=◌, arith, string_eq,
}
use pgpilot_operator.Kube.Meta.{ObjectMeta, NamespacedName}
use pgpilot_operator.Api.Monitor.{PgpilotMonitor}
use pgpilot_operator.Builder.Library.{Library}
use pgpilot_operator.Controller.Cluster.{
  Cluster, Object, config_map_object, deployment_object, service_object, service_monitor_object,
  is_not_found,
}
use pgpilot_operator.Controller.Session.{Session, Request, M, apply_request, lift, send, ◌>>=◌}
use pgpilot_operator.Controller.Client.{
  meta_of, with_meta, stripped, status_attempt, server_side_apply, apply_child,
}
use pgpilot_operator.Controller.Triple.{
  Assertion, Triple, Triple-bind, Triple-lift, Triple-given, Triple-in_context, Triple-send,
  Triple-fetch, Fetched, Refused,
}
use pgpilot_operator.Controller.Monitor.Progress.{
  Progress, Progress-send, Progress-later, object_rank,
}

module _ (C : Cluster) (lib : Library) where
  -- Why a reconcile returns an error.
  pub data Cause : Type 0 where
    refused_read :
        (req : NamespacedName) (e : Error)
        → Refused (C.get_monitor req) e
        → is_not_found e ≡ false
        → Cause
    refused_update : (m : PgpilotMonitor) (e : Error) → Refused (C.update_monitor m) e → Cause
    not_owned :
        (owner meta : ObjectMeta) (e : Error)
        → C.set_controller_reference owner meta ≡ err e
        → Cause
    refused_apply : (obj : Object) (e : Error) → Refused (C.apply obj) e → Cause
    refused_replicas :
        (key : NamespacedName) (e : Error) → Refused (C.get_ready_replicas key) e → Cause
    refused_status :
        (m : PgpilotMonitor) (e : Error)
        → Refused (C.retry_on_conflict (Session C) (status_attempt C m)) e
        → Cause

  -- Some objects were applied, in order, before an error.
  pub record Partial (before now : List Request) : Type 0 where
    pub cause : Cause
    pub objects : List Object
    pub progress : Progress before objects 8 now

  pub Partial-of :
      {before : List Request} {os : List Object}
      → Cause
      → (k : ℕ) {now : List Request} → k ≤ 8
      → Progress before os k now
      → Partial before now
  Partial-of cause k le p = record {
    cause = cause;
    objects = _;
    progress = Progress-later k 8 le p;
  }

module _ (C : Cluster) where
  -- The object as it is applied for its owner.
  abbrev pub owned : ObjectMeta → Object → Result Object
  owned owner obj =
      C.set_controller_reference owner (meta_of obj) >>>= λ meta. ok (stripped (with_meta obj meta))

  -- Each was owned, and the API server accepted it.
  abbrev pub OwnedAll : ObjectMeta → List Object → List Object → Type 0
  OwnedAll owner [] [] = Unit
  OwnedAll owner [] (d ∷ ds) = ⊥
  OwnedAll owner (o ∷ os) [] = ⊥
  OwnedAll owner (o ∷ os) (d ∷ ds) =
      (owned owner d ≡ ok o) × Fetched (C.apply o) tt × OwnedAll owner os ds

  rank-stripped :
      (obj : Object) (meta : ObjectMeta)
      → object_rank (stripped (with_meta obj meta)) ≡ object_rank obj
  rank-stripped (config_map_object o) meta = refl
  rank-stripped (deployment_object o) meta = refl
  rank-stripped (service_object o) meta = refl
  rank-stripped (service_monitor_object o) meta = refl

  -- The object was sent, owned by the monitor, after those before it.
  abbrev Sent : List Request → List Object → PgpilotMonitor → Object → Object → Assertion
  Sent before os m obj o now =
      (owned m.object_meta obj ≡ ok o) × Progress before (os ++ o ∷ []) (suc (object_rank obj)) now

  -- And the API server accepted it.
  abbrev pub Applied : List Request → List Object → PgpilotMonitor → Object → Assertion
  Applied before os m obj now =
      (o : Object) × (owned m.object_meta obj ≡ ok o)
      × Fetched (C.apply o) tt
      × Progress before (os ++ o ∷ []) (suc (object_rank obj)) now

module _ (C : Cluster) (lib : Library) where
  Triple-server_side_apply :
      (before : List Request) (os : List Object) (k : ℕ) (m : PgpilotMonitor) (obj : Object)
      (meta : ObjectMeta)
      → k ≤ object_rank obj
      → object_rank obj ≤ 5
      → C.set_controller_reference m.object_meta (meta_of obj) ≡ ok meta
      → Triple
          (Progress before os k)
          (server_side_apply C (with_meta obj meta))
          (λ _. Applied C before os m obj)
          (Partial C lib before)
  unfolding server_side_apply
  Triple-server_side_apply before os k m obj meta low high e =
      let o = stripped (with_meta obj meta) in
      let same = rank-stripped C obj meta in
      Triple-bind {R = λ _. Sent C before os m obj o} (send (apply_request o)) _
        (Triple-send (apply_request o) (λ l p.
          let sent = Progress-send k (apply_request o) (omega (arith, same)) p in
          (rw e, Progress-later (suc (object_rank o)) _ (omega (arith, same)) sent)))
        (λ _.
          Triple-fetch (C.apply o) (λ a f l p. (o, p.0, f, p.1))
            (λ e r l p. Partial-of C lib (refused_apply o e r) _ (omega arith) p.1))

  pub Triple-apply_child :
      (before : List Request) (os : List Object) (k : ℕ) (m : PgpilotMonitor) (context : String)
      (obj : Object)
      → k ≤ object_rank obj
      → object_rank obj ≤ 5
      → Triple
          (Progress before os k)
          (apply_child C m context obj)
          (λ _. Applied C before os m obj)
          (Partial C lib before)
  unfolding apply_child
  Triple-apply_child before os k m context obj low high =
      let reference = C.set_controller_reference m.object_meta (meta_of obj) in
      Triple-bind {R = λ meta l. (reference ≡ ok meta) × Progress before os k l} (lift reference) _
        (Triple-lift reference (λ meta e l p. (e, p))
          (λ e q l p.
            Partial-of C lib (not_owned m.object_meta (meta_of obj) e q) k (omega arith) p))
        (λ meta. Triple-given _ λ e.
          Triple-in_context context _ (Triple-server_side_apply before os k m obj meta low high e))

  -- Applying an object, and what follows it.
  pub Triple-applied :
      {A : Type 0} {Q : A → Assertion} (before : List Request) (os : List Object) (k : ℕ)
      (m : PgpilotMonitor) (context : String) (obj : Object) (next : M C A)
      → k ≤ object_rank obj
      → object_rank obj ≤ 5
      → ((o : Object)
          → owned C m.object_meta obj ≡ ok o
          → Fetched (C.apply o) tt
          → Triple
              (Progress before (os ++ o ∷ []) (suc (object_rank obj)))
              next
              Q
              (Partial C lib before))
      → Triple
          (Progress before os k)
          (apply_child C m context obj >>= λ _. next)
          Q
          (Partial C lib before)
  Triple-applied before os k m context obj next low high h =
      Triple-bind _ _ (Triple-apply_child before os k m context obj low high)
        (λ _. record { at = λ s p. (h p.0 p.1 p.2).at s p.3 })
