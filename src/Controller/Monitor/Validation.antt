-- ===== src/Controller/Monitor/Validation.antt =====
-- What the validation of credentials and the resolution of libraries send, as triples.
use mathlib.Core.Path.{subst}
use pgpilot_operator.Base.{
  ◌≡◌, refl, true, false, ◌&&◌, inl, inr, Option, none, some, List, [], ◌∷◌, Error, Result, ok, err,
  err-injective, arith, ◌⊎◌, string_eq, nonempty,
}
use pgpilot_operator.Api.Metrics.{PgpilotMetricLibrary}
use pgpilot_operator.Api.Monitor.{
  CredentialsSecretRef, DatabaseRef, LibraryRef, PgpilotMonitorStatus, PgpilotMonitor,
}
use pgpilot_operator.Builder.Library.{Library}
use pgpilot_operator.Builder.Secrecy.{HasCredentials}
use pgpilot_operator.Controller.Cluster.{Cluster, IsLawful}
use pgpilot_operator.Controller.Session.{Request, warning}
use pgpilot_operator.Controller.Client.{set_condition}
use pgpilot_operator.Controller.Triple.{
  Assertion, Triple, Triple-pure, Triple-if, Triple-bind, Triple-send, Triple-fetch, Triple-given,
  Fetched, Refused, Triple-attempt-call, Triple-in_context, Triple-weaken,
}
use pgpilot_operator.Controller.Triple.Status.{Triple-try_patch_status}
use pgpilot_operator.Controller.Checks.{
  key_of, requeue_in, Verdict, secret_missing, secret_read, check_secret, no_credentials,
  validate_by_secret, validate_credentials, resolve_refs, libraries_failed,
}
use pgpilot_operator.Controller.Monitor.Progress.{Progress, Progress-later, Progress-event}
use pgpilot_operator.Controller.Monitor.Status.{with_status, KeptByStatus-Progress}

pub no_credentials_lem :
    (db : DatabaseRef)
    → nonempty db.username && nonempty db.password ≡ false
    → db.credentials_secret ≡ none
    → ¬ HasCredentials db
no_credentials_lem db partial absent (inl inline) = cc
no_credentials_lem db partial absent (inr (ref, named)) = cc

module _ (C : Cluster) where
  -- The libraries are what the API server answered for the references, in their order.
  abbrev pub ResolvedAll : PgpilotMonitor → List LibraryRef → List PgpilotMetricLibrary → Type 0
  ResolvedAll m [] [] = Unit
  ResolvedAll m [] (l ∷ ls) = ⊥
  ResolvedAll m (r ∷ rs) [] = ⊥
  ResolvedAll m (r ∷ rs) (l ∷ ls) =
      Fetched (C.get_library (key_of m r.name)) l × ResolvedAll m rs ls

  -- One of the references was refused.
  abbrev pub Unresolved : PgpilotMonitor → List LibraryRef → Type 0
  Unresolved m [] = ⊥
  Unresolved m (r ∷ rs) =
      ((e : Error) × Refused (C.get_library (key_of m r.name)) e) ⊎ Unresolved m rs

  -- Why a reconcile stops before it applies anything, and what it then asks for.
  pub data Blocked (m : PgpilotMonitor) : Type 0 where
    no_source : ¬ HasCredentials m.spec.database → Blocked m
    no_secret :
        (ref : CredentialsSecretRef) (e : Error)
        → m.spec.database.credentials_secret ≡ some ref
        → Refused (C.get_secret (key_of m ref.name)) e
        → Blocked m
    no_library : Unresolved m m.spec.metrics.from_libraries → Blocked m

module _ (C : Cluster) (lib : Library) (before : List Request) where
  -- The verdict to keep reconciling comes with credentials, and with a monitor of which only the
  -- status changed; the other verdict with a reason, and nothing applied.
  abbrev pub Validated : PgpilotMonitor → Verdict → Assertion
  Validated m (m1, result, true) now =
      HasCredentials m.spec.database
      × ((st : PgpilotMonitorStatus) × (m1 ≡ with_status m st))
      × Progress before [] 1 now
  Validated m (m1, result, false) now =
      Blocked C m × (result ≡ requeue_in 30) × Progress before [] 8 now

  module _ (lawful : IsLawful C) {E : Assertion} where
    Triple-secret_missing :
        (m : PgpilotMonitor) (ref : CredentialsSecretRef) (e : Error)
        → m.spec.database.credentials_secret ≡ some ref
        → Refused (C.get_secret (key_of m ref.name)) e
        → Triple (Progress before [] 1) (secret_missing C lib m ref e) (Validated m) E
    unfolding secret_missing string_eq
    Triple-secret_missing m ref e named refused =
        Triple-bind {R = λ _. Progress before [] 7} _ _
          (Triple-send _ (λ l p. Progress-event 1 _ warning _ _ (omega arith) refl p))
          (λ _.
            Triple-bind {R = λ _. Progress before [] 7} _ _
              (Triple-try_patch_status lawful _ (KeptByStatus-Progress C _ before [] _))
              (λ _.
                Triple-pure _ (λ l p.
                  (no_secret ref e named refused, refl, Progress-later 7 8 (omega arith) p))))

    Triple-secret_read :
        (m : PgpilotMonitor) (ref : CredentialsSecretRef) (found : Result (Unit {0}))
        → m.spec.database.credentials_secret ≡ some ref
        → Triple
            (λ now.
              ((e : Error) → found ≡ err e → Refused (C.get_secret (key_of m ref.name)) e)
              × Progress before [] 1 now)
            (secret_read C lib m ref found)
            (Validated m)
            E
    unfolding secret_read set_condition
    Triple-secret_read m ref (err e) named =
        Triple-given _ λ refused. Triple-secret_missing m ref e named (refused e refl)
    Triple-secret_read m ref (ok _) named =
        Triple-pure _ (λ l p. (inr (ref, named), (_, refl), p.1))

    Triple-check_secret :
        (m : PgpilotMonitor) (ref : CredentialsSecretRef)
        → m.spec.database.credentials_secret ≡ some ref
        → Triple (Progress before [] 1) (check_secret C lib m ref) (Validated m) E
    unfolding check_secret
    Triple-check_secret m ref named =
        let secret = C.get_secret (key_of m ref.name) in
        Triple-bind _ _
          (Triple-attempt-call
            {R = λ found now.
              ((e : Error) → found ≡ err e → Refused secret e) × Progress before [] 1 now}
            secret (λ a f l p. (λ e q. cc, p))
            (λ e r l p. (λ e' q. subst (Refused secret) (err-injective q) r, p)))
          (λ found. Triple-secret_read m ref found named)

    Triple-no_credentials :
        (m : PgpilotMonitor)
        → ¬ HasCredentials m.spec.database
        → Triple (Progress before [] 1) (no_credentials C lib m) (Validated m) E
    unfolding no_credentials
    Triple-no_credentials m none_given =
        Triple-bind {R = λ _. Progress before [] 7} _ _
          (Triple-weaken _ (λ l p. Progress-later 1 7 (omega arith) p) (λ a l p. p) (λ l p. p)
            (Triple-try_patch_status lawful _ (KeptByStatus-Progress C _ before [] _)))
          (λ _.
            Triple-pure _ (λ l p. (no_source none_given, refl, Progress-later 7 8 (omega arith) p)))

    Triple-validate_by_secret :
        (m : PgpilotMonitor) (secret : Option CredentialsSecretRef)
        → nonempty m.spec.database.username && nonempty m.spec.database.password ≡ false
        → m.spec.database.credentials_secret ≡ secret
        → Triple (Progress before [] 1) (validate_by_secret C lib m secret) (Validated m) E
    unfolding validate_by_secret
    Triple-validate_by_secret m none partial e =
        Triple-no_credentials m (no_credentials_lem m.spec.database partial e)
    Triple-validate_by_secret m (some ref) partial e = Triple-check_secret m ref e

    pub Triple-validate_credentials :
        (m : PgpilotMonitor)
        → Triple (Progress before [] 1) (validate_credentials C lib m) (Validated m) E
    unfolding validate_credentials set_condition
    Triple-validate_credentials m =
        let db = m.spec.database in
        Triple-if (nonempty db.username && nonempty db.password) _ _
          (λ inline. Triple-pure _ (λ l p. (inl inline, (_, refl), p)))
          (λ partial. Triple-validate_by_secret m db.credentials_secret partial refl)

    pub Triple-libraries_failed :
        (m : PgpilotMonitor) (e : Error)
        → Triple
            (Progress before [] 1)
            (libraries_failed C lib m e)
            (λ result now. (result ≡ requeue_in 30) × Progress before [] 8 now)
            E
    unfolding libraries_failed string_eq
    Triple-libraries_failed m e =
        Triple-bind {R = λ _. Progress before [] 7} _ _
          (Triple-send _ (λ l p. Progress-event 1 _ warning _ _ (omega arith) refl p))
          (λ _.
            Triple-bind {R = λ _. Progress before [] 7} _ _
              (Triple-try_patch_status lawful _ (KeptByStatus-Progress C _ before [] _))
              (λ _. Triple-pure _ (λ l p. (refl, Progress-later 7 8 (omega arith) p))))

  -- Resolving libraries sends nothing.
  pub Triple-resolve_refs :
      {P : Assertion} (m : PgpilotMonitor) (refs : List LibraryRef)
      → Triple P
          (resolve_refs C lib m refs)
          (λ ls now. ResolvedAll C m refs ls × P now)
          (λ now. Unresolved C m refs × P now)
  unfolding resolve_refs
  Triple-resolve_refs m [] = Triple-pure _ (λ l p. (tt, p))
  Triple-resolve_refs {P} m (ref ∷ refs) =
      Triple-bind {R = λ x now. Fetched (C.get_library (key_of m ref.name)) x × P now} _ _
        (Triple-in_context _ _ (Triple-fetch _ (λ a f l p. (f, p)) (λ e r l p. (inl (e, r), p))))
        (λ x. Triple-given _ λ fetched.
          Triple-bind {R = λ xs now. ResolvedAll C m refs xs × P now} _ _
            (Triple-weaken _ (λ l p. p) (λ a l p. p) (λ l p. (inr p.0, p.1))
              (Triple-resolve_refs m refs))
            (λ xs. Triple-given _ λ resolved. Triple-pure _ (λ l p. ((fetched, resolved), p))))
