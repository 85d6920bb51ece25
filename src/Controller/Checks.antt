-- ===== src/Controller/Checks.antt =====
-- internal/controller/pgpilotmonitor_controller.go: `validateCredentials`, `resolveLibraries` and what
-- `Reconcile` does where they fail.
use pgpilot_operator.Base.{
  ℕ, String, ◌<>◌, Bool, true, false, ◌&&◌, Option, none, some, List, [], ◌∷◌, Error, error_text,
  Result, ok, err, string_eq, nonempty, if◌then◌else◌,
}
use pgpilot_operator.Kube.Meta.{NamespacedName, status_true, status_false}
use pgpilot_operator.Api.Metrics.{PgpilotMetricLibrary}
use pgpilot_operator.Api.Monitor.{CredentialsSecretRef, LibraryRef, PgpilotMonitor}
use pgpilot_operator.Builder.Library.{Library}
use pgpilot_operator.Controller.Cluster.{Cluster}
use pgpilot_operator.Controller.Session.{
  M, CtrlResult, no_requeue, warning, event_request, pure, call, attempt, in_context, send, ◌>>=◌,
  ◌>>◌,
}
use pgpilot_operator.Controller.Client.{set_condition, try_patch_status}

abbrev pub requeue_in : ℕ → CtrlResult
requeue_in seconds = record { requeue_after = seconds }

abbrev pub key_of : PgpilotMonitor → String → NamespacedName
key_of m name = record { name = name; namespace = m.object_meta.namespace }

-- The monitor as it was changed, the result, and whether to keep reconciling.
abbrev pub Verdict : Type 0
Verdict = PgpilotMonitor × CtrlResult × Bool

module _ (C : Cluster) (lib : Library) where
  -- The branch that finds no Secret.
  unfoldable pub secret_missing : PgpilotMonitor → CredentialsSecretRef → Error → M C Verdict
  secret_missing m ref e = do
    let quoted = lib.quote ref.name
    let m1 =
        set_condition C m "Ready" status_false "SecretNotFound"
          ("Secret " <> (quoted <> (" not found: " <> error_text e)))
    let m2 =
        set_condition C m1 "DatabaseReachable" status_false "SecretNotFound"
          ("Credentials secret " <> (quoted <> " not found"))
    send (
        event_request m2 warning "SecretNotFound" (
          "Credentials secret "
          <> (quoted <> (" not found in namespace " <> lib.quote m.object_meta.namespace))))
    try_patch_status C m2
    pure (m2, requeue_in 30, false)

  -- What follows the `Get` of the Secret.
  unfoldable pub secret_read :
      PgpilotMonitor → CredentialsSecretRef → Result (Unit {0}) → M C Verdict
  secret_read m ref (err e) = secret_missing m ref e
  secret_read m ref (ok _) = pure (
    set_condition C m "DatabaseReachable" status_true "CredentialsFound"
        ("Credentials secret " <> (lib.quote ref.name <> " exists")),
    no_requeue,
    true,
  )

  unfoldable pub check_secret : PgpilotMonitor → CredentialsSecretRef → M C Verdict
  check_secret m ref = do
    found ← attempt (call (C.get_secret (key_of m ref.name)))
    secret_read m ref found

  unfoldable pub no_credentials : PgpilotMonitor → M C Verdict
  no_credentials m = do
    let m1 =
        set_condition C m "Ready" status_false "NoCredentials"
          "spec.database has no inline username/password and no credentialsSecret"
    try_patch_status C m1
    pure (m1, requeue_in 30, false)

  unfoldable pub validate_by_secret : PgpilotMonitor → Option CredentialsSecretRef → M C Verdict
  validate_by_secret m none = no_credentials m
  validate_by_secret m (some ref) = check_secret m ref

  unfoldable pub validate_credentials : PgpilotMonitor → M C Verdict
  validate_credentials m =
      let db = m.spec.database in
      if nonempty db.username && nonempty db.password
      then pure (
        set_condition C m "DatabaseReachable" status_true "InlineCredentials"
            "Inline username/password configured",
        no_requeue,
        true,
      )
      else validate_by_secret m db.credentials_secret

  -- The loop over `refs`, which appends to `libs`.
  unfoldable pub resolve_refs : PgpilotMonitor → List LibraryRef → M C (List PgpilotMetricLibrary)
  resolve_refs m [] = pure []
  resolve_refs m (ref ∷ refs) = do
    l ← in_context ("library " <> lib.quote ref.name) (call (C.get_library (key_of m ref.name)))
    ls ← resolve_refs m refs
    pure (l ∷ ls)

  unfoldable pub resolve_libraries : PgpilotMonitor → M C (List PgpilotMetricLibrary)
  resolve_libraries m = resolve_refs m m.spec.metrics.from_libraries

  unfoldable pub libraries_failed : PgpilotMonitor → Error → M C CtrlResult
  libraries_failed m e = do
    let m1 = set_condition C m "Ready" status_false "LibraryResolveFailed" (error_text e)
    send (
        event_request m1 warning "LibraryResolveFailed"
          ("Failed to resolve metric libraries: " <> error_text e))
    try_patch_status C m1
    pure (requeue_in 30)
