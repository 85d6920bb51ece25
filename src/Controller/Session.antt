-- ===== src/Controller/Session.antt =====
-- One reconcile call as a state monad: the world, and the requests and events sent so far.
use pgpilot_operator.Base.{
  ℕ, String, Option, none, some, List, [], ◌∷◌, ◌++◌, Error, Result, ok, err, wrap,
}
use pgpilot_operator.Api.Metrics.{PgpilotMetricLibrary}
use pgpilot_operator.Api.Monitor.{PgpilotMonitor}
use pgpilot_operator.Controller.Cluster.{Cluster, Object}

pub data EventType : Type 0 where
  normal warning : EventType

-- What a reconciler sends out: writes to the API server, and events to the recorder.
pub data Request : Type 0 where
  update_request : PgpilotMonitor → Request
  apply_request : Object → Request
  status_request : PgpilotMonitor → Request
  library_status_request : PgpilotMetricLibrary → Request
  -- the object that the event is about comes first
  event_request : PgpilotMonitor → EventType → String → String → Request

pub record Session (C : Cluster) : Type 0 where
  pub world : C.World
  pub requests : List Request

-- A Go function that returns a value, or an error, or panics.
pub data Answer {ℓ} (A : Type ℓ) : Type ℓ where
  done : A → Answer A
  failed : Error → Answer A
  panic : Answer A

abbrev pub M : Cluster → Type 0 → Type 0
M C A = Session C → Answer A × Session C

-- `ctrl.Result`, in seconds; 0 asks for nothing.
pub record CtrlResult : Type 0 where
  pub requeue_after : ℕ

abbrev pub no_requeue : CtrlResult
no_requeue = record { requeue_after = 0 }

module _ {A : Type 0} where
  abbrev pub answer : Result A → Answer A
  answer (ok a) = done a
  answer (err e) = failed e

  abbrev pub present : Option A → Answer A
  present none = panic
  present (some a) = done a

  abbrev pub outcome : Answer A → Answer (Result A)
  outcome (done a) = done (ok a)
  outcome (failed e) = done (err e)
  outcome panic = panic

  abbrev pub wrapped : String → Answer A → Answer A
  wrapped prefix (done a) = done a
  wrapped prefix (failed e) = failed (wrap prefix e)
  wrapped prefix panic = panic

module _ {C : Cluster} {A : Type 0} where
  unfoldable pub pure : A → M C A
  pure a s = (done a, s)

  unfoldable pub raise : Error → M C A
  raise e s = (failed e, s)

  -- A result that is at hand.
  unfoldable pub lift : Result A → M C A
  lift r s = (answer r, s)

  -- `none` is a run-time panic.
  unfoldable pub or_panic : Option A → M C A
  or_panic o s = (present o, s)

  -- A call that only reads, or that is recorded elsewhere.
  unfoldable pub call : (C.World → Result A × C.World) → M C A
  call f s = let (r, w) = f s.world in (answer r, record s { world = w })

  -- Hands an error to the caller as a value.
  unfoldable pub attempt : M C A → M C (Result A)
  attempt m s = let (a, t) = m s in (outcome a, t)

  unfoldable pub in_context : String → M C A → M C A
  in_context prefix m s = let (a, t) = m s in (wrapped prefix a, t)

module _ {C : Cluster} {A B : Type 0} where
  abbrev pub continue : Answer A → (A → M C B) → M C B
  continue (done a) f s = f a s
  continue (failed e) f s = (failed e, s)
  continue panic f s = (panic, s)

  infixl 5 ◌>>=◌ ◌>>◌
  unfoldable pub ◌>>=◌ : M C A → (A → M C B) → M C B
  ◌>>=◌ m f s = let (a, t) = m s in continue a f t

  abbrev pub ◌>>◌ : M C A → M C B → M C B
  m >> n = m >>= λ _. n

module _ {C : Cluster} where
  -- Records a request; the call that carries it out follows.
  unfoldable pub send : Request → M C (Unit {0})
  send r s = (done tt, record s { requests = s.requests ++ r ∷ [] })

  unfoldable pub clock : M C ℕ
  clock s = let (t, w) = C.now s.world in (done t, record s { world = w })
