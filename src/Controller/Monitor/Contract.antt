-- ===== src/Controller/Monitor/Contract.antt =====
-- What one run of `Reconcile` does to the cluster, whatever the API server answers.
use mathlib.Core.List.{append-nil}
use mathlib.Core.Path.{subst}
use Prim.Native.String.{len}
use pgpilot_operator.Base.{
  ◌≤◌, String, ◌≡◌, refl, sym, ◌∙◌, ap, ◌∷◌, ◌++◌, Bool, true, false, List, [], Result, ok, err,
  arith, inl,
}
use pgpilot_operator.Kube.Meta.{NamespacedName}
use pgpilot_operator.Api.Monitor.{PgpilotMonitor}
use pgpilot_operator.Builder.Library.{Library}
use pgpilot_operator.Controller.Cluster.{Cluster, IsLawful, is_not_found}
use pgpilot_operator.Controller.Session.{Session, Request, update_request}
use pgpilot_operator.Controller.Client.{update}
use pgpilot_operator.Controller.Triple.{
  Post, Fetched, Answered, Triple-read, Triple, Triple-pure, Triple-raise, Triple-if, Triple-bind,
  Triple-send, Triple-fetch, Triple-given, Triple-weaken,
}
use pgpilot_operator.Controller.Monitor.{
  finalizer_name, is_deleted, finalize, ensure_finalizer, reconcile_found, after_get, reconcile,
}
use pgpilot_operator.Controller.Monitor.Progress.{
  Progress, Progress-start, Progress-later, Progress-note,
}
use pgpilot_operator.Controller.Monitor.Applied.{refused_read, refused_update, Partial-of}
use pgpilot_operator.Controller.Monitor.Validation.{Triple-validate_credentials}
use pgpilot_operator.Controller.Monitor.Outcome.{
  Current, carried, marked, absent, deleted, Outcome, Failed,
}
use pgpilot_operator.Controller.Monitor.Delivery.{Triple-after_validation}

module _ (C : Cluster) (lib : Library) where
  module _ (lawful : IsLawful C) (long : (x : String) → 12 ≤ len (lib.hex_digest x))
      (enabled : Bool) (req : NamespacedName) (before : List Request) where
    Triple-update :
        (m : PgpilotMonitor)
        → Triple
            (λ now. now ≡ before)
            (update C m)
            (λ m1 now. Fetched (C.update_monitor m) m1 × (now ≡ before ++ update_request m ∷ []))
            (Failed C lib req before)
    unfolding update
    Triple-update m =
        Triple-bind {R = λ _ now. now ≡ before ++ update_request m ∷ []} _ _
          (Triple-send _ (λ l p. ap (λ x. x ++ update_request m ∷ []) p))
          (λ _.
            Triple-fetch _ (λ a f l p. (f, p))
              (λ e r l p.
                inl (Partial-of C lib (refused_update m e r) 1 (omega arith) (updated m p))))
      where
        updated :
            (m : PgpilotMonitor) {now : List Request}
            → now ≡ before ++ update_request m ∷ []
            → Progress before [] 1 now
        updated m p =
            subst (Progress before [] 1) (sym p)
              (Progress-note 0 (update_request m) (omega arith) refl (Progress-start before))

    Triple-ensure_finalizer :
        (m : PgpilotMonitor)
        → Fetched (C.get_monitor req) m
        → is_deleted m.object_meta.deletion_timestamp ≡ false
        → Triple
            (λ now. now ≡ before)
            (ensure_finalizer C lib m)
            (λ m1 now. Current C lib req m1 × Progress before [] 1 now)
            (Failed C lib req before)
    unfolding ensure_finalizer
    Triple-ensure_finalizer m fetched alive =
        Triple-if (C.contains_finalizer m.object_meta finalizer_name) _ _
          (λ has. Triple-pure _ (λ l p. (
            carried m fetched alive has,
            subst (Progress before [] 1) (sym p)
                (Progress-later 0 1 (omega arith) (Progress-start before)),
          )))
          (λ lacks.
            Triple-weaken _ (λ l p. p)
              (λ m1 l p. (
                marked m m1 fetched alive lacks p.0,
                subst (Progress before [] 1) (sym p.1)
                    (Progress-note 0 (update_request _) (omega arith) refl (Progress-start before)),
              ))
              (λ l p. p) (Triple-update _))

    Triple-finalize :
        (m : PgpilotMonitor)
        → Fetched (C.get_monitor req) m
        → is_deleted m.object_meta.deletion_timestamp ≡ true
        → Triple
            (λ now. now ≡ before)
            (finalize C lib m)
            (Outcome C lib enabled req before)
            (Failed C lib req before)
    unfolding finalize
    Triple-finalize m fetched gone =
        Triple-if (C.contains_finalizer m.object_meta finalizer_name) _ _
          (λ has. Triple-bind _ _ (Triple-update _) (λ m1.
            Triple-pure _ (λ l p. inl (deleted m fetched gone (rw has p.1) (λ h. (m1, p.0))))))
          (λ lacks. Triple-pure _ (λ l p. inl (
            deleted m fetched gone (rw lacks (p ∙ sym (append-nil before)))
              (λ h. absurd (cc (h, lacks))))))

    Triple-reconcile_found :
        (m : PgpilotMonitor)
        → Fetched (C.get_monitor req) m
        → Triple
            (λ now. now ≡ before)
            (reconcile_found C lib enabled m)
            (Outcome C lib enabled req before)
            (Failed C lib req before)
    unfolding reconcile_found
    Triple-reconcile_found m fetched =
        Triple-if (is_deleted m.object_meta.deletion_timestamp) _ _
          (λ gone. Triple-finalize m fetched gone)
          (λ alive. Triple-bind _ _ (Triple-ensure_finalizer m fetched alive) (λ m1.
            Triple-given _ λ current.
              Triple-bind _ _ (Triple-validate_credentials C lib before lawful m1) (λ verdict.
                Triple-after_validation C lib lawful long enabled req before m1 verdict current)))

    Triple-after_get :
        (found : Result PgpilotMonitor)
        → Triple
            (λ now. Answered (C.get_monitor req) found × (now ≡ before))
            (after_get C lib enabled found)
            (Outcome C lib enabled req before)
            (Failed C lib req before)
    unfolding after_get
    Triple-after_get (ok m) = Triple-given _ λ fetched. Triple-reconcile_found m fetched
    Triple-after_get (err e) = Triple-given _ λ refused.
        Triple-if (is_not_found e) _ _
          (λ missing. Triple-pure _ (λ l p. inl (absent e refused missing p)))
          (λ present. Triple-raise _ (λ l p. inl (
            Partial-of C lib (refused_read req e refused present) 0 (omega arith)
              (subst (Progress before [] 0) (sym p) (Progress-start before)))))

    Triple-reconcile :
        Triple
          (λ now. now ≡ before)
          (reconcile C lib enabled req)
          (Outcome C lib enabled req before)
          (Failed C lib req before)
    unfolding reconcile
    Triple-reconcile = Triple-bind _ _ (Triple-read (C.get_monitor req)) Triple-after_get

  -- With the helpers of the client libraries as documented and digests of twelve characters or more,
  -- a run of `Reconcile` never panics, whatever the API server answers. If it returns without an
  -- error, then either it has applied, in this order and each owned by the monitor, exactly the
  -- ConfigMap, the Deployment, the Service and, where enabled, the ServiceMonitor that the builders
  -- make of the monitor as read and of the libraries that it names, and that monitor is not being
  -- deleted and has credentials; it has then written a status of the monitor, and the API server has
  -- accepted each of these requests. Or the monitor was absent, and it has sent nothing; or the monitor
  -- is being deleted, and it has sent the update that removes the finalizer, if there was one, which
  -- the API server accepted, and nothing else; or it has applied no child, and asks for a requeue in 30 seconds, since the monitor
  -- has no source of credentials, or its secret or one of its libraries was refused. If it returns an
  -- error, then some call was refused or an owner could not be set, and the objects that it has applied
  -- are in order; or the ConfigMap was not built, and it has applied none.
  pub reconcile-Outcome :
      (lawful : IsLawful C)
      → ((x : String) → 12 ≤ len (lib.hex_digest x))
      → (enabled : Bool) (req : NamespacedName) (s : Session C)
      → let (a, t) = reconcile C lib enabled req s in
        Post (Outcome C lib enabled req s.requests) (Failed C lib req s.requests) a t.requests
  reconcile-Outcome lawful long enabled req s =
      (Triple-reconcile lawful long enabled req s.requests).at s refl
