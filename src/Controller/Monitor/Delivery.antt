-- ===== src/Controller/Monitor/Delivery.antt =====
-- What a run of `Reconcile` does once the credentials were looked for.
use mathlib.Core.Path.{subst}
use Prim.Native.String.{len}
use pgpilot_operator.Base.{
  ◌≤◌, String, ◌≡◌, refl, sym, ◌∙◌, Bool, true, false, List, [], Error, Result, ok, err, arith,
  ok-injective, inl, inr,
}
use pgpilot_operator.Kube.Meta.{NamespacedName}
use pgpilot_operator.Api.Metrics.{PgpilotMetricLibrary}
use pgpilot_operator.Api.Monitor.{PgpilotMonitorStatus, PgpilotMonitor}
use pgpilot_operator.Builder.Library.{Library}
use pgpilot_operator.Builder.Secrecy.{HasCredentials}
use pgpilot_operator.Builder.Metrics.{merge_metrics}
use pgpilot_operator.Builder.ConfigMap.{build_config_map}
use pgpilot_operator.Controller.Cluster.{Cluster, IsLawful}
use pgpilot_operator.Controller.Session.{Request, CtrlResult}
use pgpilot_operator.Controller.Triple.{
  Triple, Triple-pure, Triple-bind, Triple-attempt, Triple-weaken,
}
use pgpilot_operator.Controller.Monitor.{after_libraries, after_validation}
use pgpilot_operator.Controller.Checks.{Verdict, resolve_libraries}
use pgpilot_operator.Controller.Monitor.Progress.{Progress, Progress-later}
use pgpilot_operator.Controller.Monitor.Status.{with_status}
use pgpilot_operator.Controller.Monitor.Validation.{
  Validated, ResolvedAll, Unresolved, no_library, Triple-libraries_failed, Triple-resolve_refs,
}
use pgpilot_operator.Controller.Monitor.Children.{
  build_config_map-with_status, Converged-with_status, Triple-reconcile_children,
}
use pgpilot_operator.Controller.Monitor.Outcome.{Current, Idle, blocked, Unbuilt, Outcome, Failed}

module _ (C : Cluster) (lib : Library) where
  module _ (lawful : IsLawful C) (long : (x : String) → 12 ≤ len (lib.hex_digest x))
      (enabled : Bool) (req : NamespacedName) (before : List Request) where
    Unbuilt-of :
        (m : PgpilotMonitor) (st : PgpilotMonitorStatus) (ls : List PgpilotMetricLibrary)
        {now : List Request}
        → Current C lib req m
        → ResolvedAll C m m.spec.metrics.from_libraries ls
        → (e : Error) × (build_config_map lib
              (with_status m st)
              (merge_metrics lib m.spec.metrics ls)
            ≡ err e)
        → Progress before [] 1 now
        → Unbuilt C lib req before now
    Unbuilt-of m st ls current resolved (e, failed) progress = record {
      monitor = m;
      libraries = ls;
      current = current;
      resolved = resolved;
      error = e;
      failed = sym (build_config_map-with_status C lib before m st _) ∙ failed;
      progress = Progress-later 1 8 (omega arith) progress;
    }

    Triple-after_libraries :
        (m : PgpilotMonitor) (st : PgpilotMonitorStatus)
        (resolved : Result (List PgpilotMetricLibrary))
        → Current C lib req m
        → HasCredentials m.spec.database
        → Triple
            (λ now.
              ((ls : List PgpilotMetricLibrary)
                → resolved ≡ ok ls
                → ResolvedAll C m m.spec.metrics.from_libraries ls)
              × ((e : Error) → resolved ≡ err e → Unresolved C m m.spec.metrics.from_libraries)
              × Progress before [] 1 now)
            (after_libraries C lib enabled (with_status m st) resolved)
            (Outcome C lib enabled req before)
            (Failed C lib req before)
    unfolding after_libraries
    Triple-after_libraries m st (err e) current credentials = record {
      at = λ s p.
          (Triple-weaken _ (λ l q. q)
              (λ a l q. inl (
                subst (Idle C lib req before l) (sym q.0)
                  (blocked m current (no_library (p.1 e refl)) q.1)))
              (λ l q. q) (Triple-libraries_failed C lib before lawful (with_status m st) e)).at
            s p.2;
    }
    Triple-after_libraries m st (ok ls) current credentials = record {
      at = λ s p.
          (Triple-weaken _ (λ l q. q)
              (λ a l q. inr (record {
                monitor = m;
                libraries = ls;
                current = current;
                credentials = credentials;
                resolved = p.0 ls refl;
                converged = Converged-with_status C lib before enabled m st ls l q;
              }))
              (λ l q. elim q [
                | inl partial ↦ inl partial
                | inr (failed, progress) ↦
                    inr (Unbuilt-of m st ls current (p.0 ls refl) failed progress)
              ])
              (Triple-reconcile_children C lib before lawful long enabled (with_status m st) ls
                credentials)).at
            s p.2;
    }

    Triple-after_valid :
        (m : PgpilotMonitor) (st : PgpilotMonitorStatus) (result : CtrlResult)
        → Current C lib req m
        → HasCredentials m.spec.database
        → Triple
            (Progress before [] 1)
            (after_validation C lib enabled (with_status m st, result, true))
            (Outcome C lib enabled req before)
            (Failed C lib req before)
    unfolding after_validation resolve_libraries
    Triple-after_valid m st result current credentials =
        let refs = m.spec.metrics.from_libraries in
        Triple-bind _ _
          (Triple-attempt {F = λ now. Unresolved C m refs × Progress before [] 1 now}
            {R = λ resolved now.
              ((ls : List PgpilotMetricLibrary) → resolved ≡ ok ls → ResolvedAll C m refs ls)
              × ((e : Error) → resolved ≡ err e → Unresolved C m refs)
              × Progress before [] 1 now}
            _
            (Triple-weaken _ (λ l p. p)
              (λ xs l p.
                (λ ls e. subst (ResolvedAll C m refs) (ok-injective e) p.0, (λ x e. cc), p.1))
              (λ l p. p) (Triple-resolve_refs C lib before (with_status m st) refs))
            (λ e l p. ((λ ls q. cc), (λ x q. p.0), p.1)))
          (λ resolved. Triple-after_libraries m st resolved current credentials)

    pub Triple-after_validation :
        (m : PgpilotMonitor) (verdict : Verdict)
        → Current C lib req m
        → Triple
            (Validated C lib before m verdict)
            (after_validation C lib enabled verdict)
            (Outcome C lib enabled req before)
            (Failed C lib req before)
    unfolding after_validation
    Triple-after_validation m (m1, result, true) current = record {
      at = λ s p.
          (subst
              (λ x.
                Triple (Progress before [] 1) (after_validation C lib enabled (x, result, true))
                  (Outcome C lib enabled req before) (Failed C lib req before))
              (sym p.1.1) (Triple-after_valid m p.1.0 result current p.0)).at
            s p.2;
    }
    Triple-after_validation m (m1, result, false) current =
        Triple-pure _
          (λ l p. inl (subst (Idle C lib req before l) (sym p.1) (blocked m current p.0 p.2)))
    -- The one request of an update.
