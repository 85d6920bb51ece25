-- ===== src/Controller/Monitor/Statuses/Checks.antt =====
-- The statuses that the checks before the ConfigMap write.
use mathlib.Core.Path.{subst}
use pgpilot_operator.Base.{
  String, ◌≡◌, ◌≢◌, refl, sym, Bool, true, false, ◌&&◌, inl, inr, Option, none, some, Error, Result,
  ok, err, err-injective, nonempty, string_eq, List,
}
use pgpilot_operator.Kube.Meta.{NamespacedName, status_true, status_false}
use pgpilot_operator.Api.Monitor.{CredentialsSecretRef, PgpilotMonitorStatus, PgpilotMonitor}
use pgpilot_operator.Builder.Library.{Library}
use pgpilot_operator.Builder.Secrecy.{HasCredentials}
use pgpilot_operator.Controller.Cluster.{Cluster, IsLawful}
use pgpilot_operator.Controller.Session.{Request}
use pgpilot_operator.Controller.Client.{set_condition, try_patch_status}
use pgpilot_operator.Controller.Triple.{
  Assertion, Refused, Triple, Triple-pure, Triple-if, Triple-bind, Triple-given, Triple-send,
  Triple-attempt-call,
}
use pgpilot_operator.Controller.Triple.Status.{own_key, Triple-try_patch_status}
use pgpilot_operator.Controller.Checks.{
  key_of, Verdict, secret_missing, secret_read, check_secret, no_credentials, validate_by_secret,
  validate_credentials, libraries_failed,
}
use pgpilot_operator.Controller.Monitor.Status.{with_status}
use pgpilot_operator.Controller.Monitor.Validation.{Unresolved, no_credentials_lem}
use pgpilot_operator.Controller.Monitor.Outcome.{Current}
use pgpilot_operator.Controller.Monitor.Statuses.{
  Tells, credentials_reason, Checked, Says, says_no_source, says_no_secret, says_no_library,
  secret_lost, library_lost, set_condition-Tells, set_condition-other,
}
use pgpilot_operator.Controller.Monitor.Statuses.Account.{
  Written, Written-append, KeptByStatus-Written,
}

ready_differs : ◌≢◌ {A = String} "Ready" "DatabaseReachable"
ready_differs = cc

module _ (C : Cluster) (lib : Library) (lawful : IsLawful C) (enabled : Bool) (req : NamespacedName)
    (before : List Request) (m : PgpilotMonitor) (current : Current C lib req m) where
  abbrev pub Sent : Assertion
  Sent = Written C lib enabled req before

  -- The verdict to keep reconciling comes with a status that tells of the credentials.
  abbrev pub Judged : Verdict → Assertion
  Judged (m1, result, true) now =
      HasCredentials m.spec.database
      × ((st : PgpilotMonitorStatus) × (m1 ≡ with_status m st) × Checked m st)
      × Sent now
  Judged (m1, result, false) now = Sent now

  set_condition-Checked :
      (reason message : String)
      → credentials_reason m.spec.database ≡ reason
      → Checked m (set_condition C m "DatabaseReachable" status_true reason message).status
  unfolding set_condition
  set_condition-Checked reason message e = record {
    flag = refl;
    same_hash = refl;
    reachable =
        subst
          (λ r.
            Tells "DatabaseReachable" status_true r
              (set_condition C m "DatabaseReachable" status_true reason message).status)
          (sym e) (set_condition-Tells C lawful m "DatabaseReachable" status_true reason message);
  }

  secret_missing-Says :
      (ref : CredentialsSecretRef) (e : Error)
      → m.spec.database.credentials_secret ≡ some ref
      → Refused (C.get_secret (key_of m ref.name)) e
      → (message other : String)
      → let m1 = set_condition C m "Ready" status_false "SecretNotFound" message in
        Says C lib m
          (set_condition C m1 "DatabaseReachable" status_false "SecretNotFound" other).status
  unfolding set_condition
  secret_missing-Says ref e named refused message other =
      let m1 = set_condition C m "Ready" status_false "SecretNotFound" message in
      says_no_secret ref e named refused refl
        (set_condition-other C lawful m1 "DatabaseReachable" status_false "SecretNotFound" other
          "Ready" "SecretNotFound" status_false ready_differs
          (set_condition-Tells C lawful m "Ready" status_false "SecretNotFound" message))
        (set_condition-Tells C lawful m1 "DatabaseReachable" status_false "SecretNotFound" other)

  module _ {E : Assertion} where
    Triple-said :
        (m1 : PgpilotMonitor)
        → Says C lib m m1.status
        → own_key m1 ≡ own_key m
        → Triple Sent (try_patch_status C m1) (λ _. Sent) E
    Triple-said m1 says same =
        Triple-try_patch_status lawful m1
          (KeptByStatus-Written C lib m m1.status (own_key m1) current says same)

    Triple-secret_missing-Judged :
        (ref : CredentialsSecretRef) (e : Error)
        → m.spec.database.credentials_secret ≡ some ref
        → Refused (C.get_secret (key_of m ref.name)) e
        → Triple Sent (secret_missing C lib m ref e) Judged E
    unfolding secret_missing set_condition
    Triple-secret_missing-Judged ref e named refused =
        Triple-bind {R = λ _. Sent} _ _
          (Triple-send _ (λ l p.
            Written-append C lib _ ((m, current, secret_lost ref e named refused, refl), tt) p))
          (λ _.
            Triple-bind {R = λ _. Sent} _ _
              (Triple-said _ (secret_missing-Says ref e named refused _ _) refl)
              (λ _. Triple-pure _ (λ l p. p)))

    Triple-secret_read-Judged :
        (ref : CredentialsSecretRef) (found : Result (Unit {0}))
        → nonempty m.spec.database.username && nonempty m.spec.database.password ≡ false
        → m.spec.database.credentials_secret ≡ some ref
        → Triple
            (λ now.
              ((e : Error) → found ≡ err e → Refused (C.get_secret (key_of m ref.name)) e)
              × Sent now)
            (secret_read C lib m ref found)
            Judged
            E
    unfolding secret_read set_condition
    Triple-secret_read-Judged ref (err e) partial named =
        Triple-given _ λ refused. Triple-secret_missing-Judged ref e named (refused e refl)
    Triple-secret_read-Judged ref (ok _) partial named = Triple-pure _ (λ l p. (
      inr (ref, named),
      (_, refl, set_condition-Checked "CredentialsFound" _ (rw partial refl)),
      p.1,
    ))

    Triple-check_secret-Judged :
        (ref : CredentialsSecretRef)
        → nonempty m.spec.database.username && nonempty m.spec.database.password ≡ false
        → m.spec.database.credentials_secret ≡ some ref
        → Triple Sent (check_secret C lib m ref) Judged E
    unfolding check_secret
    Triple-check_secret-Judged ref partial named =
        let secret = C.get_secret (key_of m ref.name) in
        Triple-bind _ _
          (Triple-attempt-call
            {R = λ found now. ((e : Error) → found ≡ err e → Refused secret e) × Sent now} secret
            (λ a f l p. (λ e q. cc, p))
            (λ e r l p. (λ e' q. subst (Refused secret) (err-injective q) r, p)))
          (λ found. Triple-secret_read-Judged ref found partial named)

    Triple-validate_by_secret-Judged :
        (secret : Option CredentialsSecretRef)
        → nonempty m.spec.database.username && nonempty m.spec.database.password ≡ false
        → m.spec.database.credentials_secret ≡ secret
        → Triple Sent (validate_by_secret C lib m secret) Judged E
    unfolding validate_by_secret no_credentials set_condition
    Triple-validate_by_secret-Judged none partial e =
        Triple-bind {R = λ _. Sent} _ _
          (Triple-said _
            (says_no_source (no_credentials_lem m.spec.database partial e) refl
              (set_condition-Tells C lawful m "Ready" status_false "NoCredentials" _))
            refl)
          (λ _. Triple-pure _ (λ l p. p))
    Triple-validate_by_secret-Judged (some ref) partial e = Triple-check_secret-Judged ref partial e

    pub Triple-validate_credentials-Judged : Triple Sent (validate_credentials C lib m) Judged E
    unfolding validate_credentials set_condition
    Triple-validate_credentials-Judged =
        let db = m.spec.database in
        Triple-if (nonempty db.username && nonempty db.password) _ _
          (λ inline. Triple-pure _ (λ l p. (
            inl inline,
            (_, refl, set_condition-Checked "InlineCredentials" _ (rw inline refl)),
            p,
          )))
          (λ partial. Triple-validate_by_secret-Judged db.credentials_secret partial refl)

    -- `st` is the status after the credentials were found.
    pub Triple-libraries_failed-Sent :
        (st : PgpilotMonitorStatus) (e : Error)
        → Checked m st
        → Unresolved C m m.spec.metrics.from_libraries
        → Triple Sent (libraries_failed C lib (with_status m st) e) (λ _. Sent) E
    unfolding libraries_failed set_condition
    Triple-libraries_failed-Sent st e checked missing =
        Triple-bind {R = λ _. Sent} _ _
          (Triple-send _
            (λ l p. Written-append C lib _ ((m, current, library_lost missing, refl), tt) p))
          (λ _.
            Triple-bind {R = λ _. Sent} _ _
              (Triple-said _
                (says_no_library missing checked.flag
                  (set_condition-Tells C lawful (with_status m st) "Ready" status_false
                    "LibraryResolveFailed" _)
                  (set_condition-other C lawful (with_status m st) "Ready" status_false
                    "LibraryResolveFailed" _ "DatabaseReachable" _ status_true
                    (λ e. ready_differs (sym e)) checked.reachable))
                refl)
              (λ _. Triple-pure _ (λ l p. p)))
