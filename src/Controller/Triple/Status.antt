-- ===== src/Controller/Triple/Status.antt =====
-- The write of the monitor's status, which is retried, as a triple.
use mathlib.Core.Path.{subst}
use pgpilot_operator.Base.{◌≡◌, refl, sym, ap, List, [], ◌∷◌, ◌++◌, Error, Result, ok, err}
use pgpilot_operator.Kube.Meta.{NamespacedName}
use pgpilot_operator.Api.Monitor.{PgpilotMonitorStatus, PgpilotMonitor}
use pgpilot_operator.Controller.Cluster.{Cluster, Retried, last, again, IsLawful}
use pgpilot_operator.Controller.Session.{
  Session, Request, status_request, pure, lift, attempt, answer,
}
use pgpilot_operator.Controller.Client.{
  write_status, status_attempt, patch_status, try_patch_status,
}
use pgpilot_operator.Controller.Triple.{
  Assertion, Post, Fetched, Refused, Triple, Triple-attempt, Triple-bind, Triple-pure,
  Triple-weaken,
}

abbrev pub own_key : PgpilotMonitor → NamespacedName
own_key m = record { name = m.object_meta.name; namespace = m.object_meta.namespace }

-- The assertion outlives every write of the status to the monitor that the API server answers.
abbrev pub KeptByStatus : Cluster → NamespacedName → PgpilotMonitorStatus → Assertion → Type 0
KeptByStatus C key status P =
    (l : List Request) (latest : PgpilotMonitor)
    → Fetched (C.get_monitor key) latest
    → P l
    → P (l ++ status_request (record latest { status = status }) ∷ [])

-- The last request writes the status to the monitor that the API server answered, and the API server
-- accepted it; the assertion held before.
abbrev pub Wrote : Cluster → Assertion → NamespacedName → PgpilotMonitorStatus → Assertion
Wrote C P key status now =
    (latest : PgpilotMonitor) × (earlier : List Request) × Fetched (C.get_monitor key) latest
    × Fetched (C.update_status (record latest { status = status })) tt
    × P earlier
    × (now ≡ earlier ++ status_request (record latest { status = status }) ∷ [])

module _ {C : Cluster} (lawful : IsLawful C) {P : Assertion} (m : PgpilotMonitor)
    (kept : KeptByStatus C (own_key m) m.status P) where
  -- What an attempt, or the last of them, leaves.
  abbrev Attempted : Result (Unit {0}) × Session C → Type 0
  Attempted (result, t) =
      P t.requests × (result ≡ ok tt → Wrote C P (own_key m) m.status t.requests)

  write_status-Attempted :
      (latest : PgpilotMonitor) (t : Session C)
      → Fetched (C.get_monitor (own_key m)) latest
      → P t.requests
      → Attempted (write_status C m (ok latest) t)
  write_status-Attempted latest t f p =
      (kept t.requests latest f p, λ e. (latest, t.requests, f, (t.world, e), p, refl))

  status_attempt-Attempted : (s : Session C) → P s.requests → Attempted (status_attempt C m s)
  unfolding status_attempt
  status_attempt-Attempted s p = go (C.get_monitor (own_key m) s.world) refl
    where
      go :
          (out : Result PgpilotMonitor × C.World)
          → C.get_monitor (own_key m) s.world ≡ out
          → Attempted (write_status C m out.0 (record s { world = out.1 }))
      go (err e, w) q = (p, λ h. cc)
      go (ok latest, w) q =
          write_status-Attempted latest (record s { world = w }) (s.world, ap (λ o. o.0) q) p

  Retried-Attempted :
      {s : Session C} {out : Result (Unit {0}) × Session C}
      → Retried (status_attempt C m) s out
      → P s.requests
      → Attempted out
  Retried-Attempted {s} (last e) p = subst Attempted e (status_attempt-Attempted s p)
  Retried-Attempted {s} (again x e c more) p =
      Retried-Attempted more (subst Attempted e (status_attempt-Attempted s p)).0

  -- Where it returns, the status was written.
  pub Triple-patch_status :
      {E : Assertion}
      → ((e : Error)
          → Refused (C.retry_on_conflict (Session C) (status_attempt C m)) e
          → (l : List Request) → P l
          → E l)
      → Triple P (patch_status C m) (λ _. Wrote C P (own_key m) m.status) E
  unfolding patch_status lift
  Triple-patch_status {E} k = record {
    at = λ s p.
        go (C.retry_on_conflict (Session C) (status_attempt C m) s) refl
          (Retried-Attempted (lawful.retry (Session C) (status_attempt C m) s) p);
  }
    where
      go :
          {s : Session C} (out : Result (Unit {0}) × Session C)
          → C.retry_on_conflict (Session C) (status_attempt C m) s ≡ out
          → Attempted out
          → Post (λ _. Wrote C P (own_key m) m.status) E (answer out.0) out.1.requests
      go (ok _, t) e p = p.1 refl
      go {s} (err x, t) e p = k x (s, ap (λ o. o.0) e) t.requests p.0

  pub Wrote-kept : (now : List Request) → Wrote C P (own_key m) m.status now → P now
  Wrote-kept now (latest, earlier, f, _, p, e) = subst P (sym e) (kept earlier latest f p)

  pub Triple-try_patch_status : {E : Assertion} → Triple P (try_patch_status C m) (λ _. P) E
  unfolding try_patch_status
  Triple-try_patch_status =
      Triple-bind {R = λ _. P} (attempt (patch_status C m)) (λ _. pure tt)
        (Triple-attempt {F = P} (patch_status C m)
          (Triple-weaken _ (λ l p. p) (λ a l w. Wrote-kept l w) (λ l p. p)
            (Triple-patch_status (λ e r l p. p)))
          (λ e l p. p))
        (λ _. Triple-pure tt (λ l p. p))
