-- ===== src/Controller/Monitor/Statuses/Runs.antt =====
-- What a whole run of `Reconcile` sends, and why.
use mathlib.Core.Path.{subst}
use Prim.Native.String.{len}
use pgpilot_operator.Base.{◌≤◌, String, ◌≡◌, refl, sym, Bool, true, false, List, Result, ok, err}
use pgpilot_operator.Kube.Meta.{NamespacedName}
use pgpilot_operator.Api.Metrics.{PgpilotMetricLibrary}
use pgpilot_operator.Api.Monitor.{PgpilotMonitorStatus, PgpilotMonitor}
use pgpilot_operator.Builder.Library.{Library}
use pgpilot_operator.Builder.Secrecy.{HasCredentials}
use pgpilot_operator.Controller.Cluster.{Cluster, IsLawful, is_not_found}
use pgpilot_operator.Controller.Session.{Session, Request}
use pgpilot_operator.Controller.Client.{update}
use pgpilot_operator.Controller.Triple.{
  Assertion, Post, Fetched, Answered, Triple, Triple-pure, Triple-raise, Triple-if, Triple-bind,
  Triple-send, Triple-call, Triple-fetch, Triple-attempt, Triple-given, Triple-read,
}
use pgpilot_operator.Controller.Monitor.{
  finalizer_name, is_deleted, finalize, ensure_finalizer, after_libraries, after_validation,
  reconcile_found, after_get, reconcile,
}
use pgpilot_operator.Controller.Checks.{Verdict, resolve_libraries}
use pgpilot_operator.Controller.Monitor.Status.{with_status}
use pgpilot_operator.Controller.Monitor.Validation.{ResolvedAll, Unresolved, Triple-resolve_refs}
use pgpilot_operator.Controller.Monitor.Outcome.{Current, carried, marked}
use pgpilot_operator.Controller.Monitor.Statuses.{Checked}
use pgpilot_operator.Controller.Monitor.Statuses.Account.{
  releases, marks, Written, Written-start, Written-append,
}
use pgpilot_operator.Controller.Monitor.Statuses.Checks.{
  Judged, Triple-validate_credentials-Judged, Triple-libraries_failed-Sent,
}
use pgpilot_operator.Controller.Monitor.Statuses.Children.{Triple-reconcile_children-Sent}

module _ (C : Cluster) (lib : Library) (lawful : IsLawful C)
    (long : (x : String) → 12 ≤ len (lib.hex_digest x)) (enabled : Bool) (req : NamespacedName)
    (before : List Request) where
  abbrev T : Assertion
  T = Written C lib enabled req before

  -- What is known of the libraries when they were looked for.
  abbrev Found : PgpilotMonitor → Result (List PgpilotMetricLibrary) → Type 0
  Found m (ok libraries) = ResolvedAll C m m.spec.metrics.from_libraries libraries
  Found m (err e) = Unresolved C m m.spec.metrics.from_libraries

  module _ (m : PgpilotMonitor) (current : Current C lib req m) where
    Triple-after_libraries-Sent :
        (st : PgpilotMonitorStatus) (found : Result (List PgpilotMetricLibrary))
        → HasCredentials m.spec.database
        → Checked m st
        → Triple
            (λ now. Found m found × T now)
            (after_libraries C lib enabled (with_status m st) found)
            (λ _. T)
            T
    unfolding after_libraries
    Triple-after_libraries-Sent st (ok libraries) credentials checked = Triple-given _ λ resolved.
        Triple-reconcile_children-Sent C lib lawful enabled req before m current libraries long
          credentials resolved st checked
    Triple-after_libraries-Sent st (err e) credentials checked = Triple-given _ λ missing.
        Triple-libraries_failed-Sent C lib lawful enabled req before m current st e checked missing

    Triple-after_validation-Sent :
        (verdict : Verdict)
        → Triple
            (Judged C lib lawful enabled req before m current verdict)
            (after_validation C lib enabled verdict)
            (λ _. T)
            T
    unfolding after_validation resolve_libraries
    Triple-after_validation-Sent (m1, result, false) = Triple-pure _ (λ l p. p)
    Triple-after_validation-Sent (m1, result, true) = record {
      at = λ s (credentials, (st, same, checked), p).
          (subst (λ x. Triple T (after_validation C lib enabled (x, result, true)) (λ _. T) T)
              (sym same)
              (Triple-bind {R = λ found now. Found m found × T now} _ _
                (Triple-attempt {F = λ now. Unresolved C m m.spec.metrics.from_libraries × T now} _
                  (Triple-resolve_refs C lib before (with_status m st)
                    m.spec.metrics.from_libraries)
                  (λ e l q. q))
                (λ found. Triple-after_libraries-Sent st found credentials checked))).at
            s p;
    }

  Triple-release-Sent :
      (m : PgpilotMonitor)
      → Fetched (C.get_monitor req) m
      → is_deleted m.object_meta.deletion_timestamp ≡ true
      → C.contains_finalizer m.object_meta finalizer_name ≡ true
      → Triple T
          (update C (record m { object_meta = C.remove_finalizer m.object_meta finalizer_name }))
          (λ _. T)
          T
  unfolding update
  Triple-release-Sent m fetched gone has =
      Triple-bind {R = λ _. T} _ _
        (Triple-send _ (λ l p. Written-append C lib _ (releases m fetched gone has refl, tt) p))
        (λ _. Triple-call _ (λ a l p. p) (λ l p. p))

  Triple-ensure_finalizer-Sent :
      (m : PgpilotMonitor)
      → Fetched (C.get_monitor req) m
      → is_deleted m.object_meta.deletion_timestamp ≡ false
      → Triple T (ensure_finalizer C lib m) (λ m1 now. Current C lib req m1 × T now) T
  unfolding ensure_finalizer update
  Triple-ensure_finalizer-Sent m fetched alive =
      Triple-if (C.contains_finalizer m.object_meta finalizer_name) _ _
        (λ has. Triple-pure _ (λ l p. (carried m fetched alive has, p)))
        (λ lacks.
          Triple-bind {R = λ _. T} _ _
            (Triple-send _ (λ l p. Written-append C lib _ (marks m fetched alive lacks refl, tt) p))
            (λ _.
              Triple-fetch _ (λ m1 f l p. (marked m m1 fetched alive lacks f, p)) (λ e r l p. p)))

  Triple-after_get-Sent :
      (found : Result PgpilotMonitor)
      → Triple
          (λ now. Answered (C.get_monitor req) found × T now)
          (after_get C lib enabled found)
          (λ _. T)
          T
  unfolding after_get reconcile_found finalize
  Triple-after_get-Sent (err e) = Triple-given _ λ refused.
      Triple-if (is_not_found e) _ _ (λ missing. Triple-pure _ (λ l p. p))
        (λ present. Triple-raise _ (λ l p. p))
  Triple-after_get-Sent (ok m) = Triple-given _ λ fetched.
      Triple-if (is_deleted m.object_meta.deletion_timestamp) _ _
        (λ gone.
          Triple-if (C.contains_finalizer m.object_meta finalizer_name) _ _
            (λ has.
              Triple-bind _ _ (Triple-release-Sent m fetched gone has)
                (λ _. Triple-pure _ (λ l p. p)))
            (λ lacks. Triple-pure _ (λ l p. p)))
        (λ alive. Triple-bind _ _ (Triple-ensure_finalizer-Sent m fetched alive) (λ m1.
          Triple-given _ λ current.
            Triple-bind _ _
              (Triple-validate_credentials-Judged C lib lawful enabled req before m1 current)
              (λ verdict. Triple-after_validation-Sent m1 current verdict)))

  Triple-reconcile-Sent : Triple T (reconcile C lib enabled req) (λ _. T) T
  unfolding reconcile
  Triple-reconcile-Sent = Triple-bind _ _ (Triple-read _) (λ found. Triple-after_get-Sent found)

pub reconcile-Written :
    (C : Cluster) (lib : Library)
    → IsLawful C
    → ((x : String) → 12 ≤ len (lib.hex_digest x))
    → (enabled : Bool) (req : NamespacedName) (s : Session C)
    → let (a, t) = reconcile C lib enabled req s in
      Post
        (λ _. Written C lib enabled req s.requests)
        (Written C lib enabled req s.requests)
        a
        t.requests
reconcile-Written C lib lawful long enabled req s =
    (Triple-reconcile-Sent C lib lawful long enabled req s.requests).at s (Written-start C lib)
