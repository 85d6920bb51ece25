-- ===== src/Controller/MetricLibrary/Published.antt =====
-- What one run of the library's `Reconcile` writes.
use mathlib.Core.Path.{subst}
use pgpilot_operator.Base.{
  ◌≡◌, refl, sym, ◌⊎◌, inl, inr, true, false, some, List, [], ◌∷◌, ◌++◌, Error, Result, ok, err, ap,
  has_items, if◌then◌else◌,
}
use pgpilot_operator.Kube.Meta.{NamespacedName, Condition, status_true, status_false}
use pgpilot_operator.Api.Metrics.{PgpilotMetricLibrary}
use pgpilot_operator.Controller.Cluster.{Cluster, IsLawful, find_condition, is_not_found}
use pgpilot_operator.Controller.Session.{
  Session, Request, CtrlResult, no_requeue, library_status_request,
}
use pgpilot_operator.Controller.Triple.{
  Assertion, Post, Fetched, Refused, Triple, Triple-pure, Triple-raise, Triple-if, Triple-bind,
  Triple-send, Triple-fetch, Triple-given, Triple-read, Answered,
}
use pgpilot_operator.Controller.MetricLibrary.{assessed, publish, after_get, reconcile}

module _ (C : Cluster) (req : NamespacedName) (before : List Request) where
  -- One write of the library as it was read, with another status. Its condition `Valid` is true
  -- exactly if the library has metrics, and it is about the generation that was read.
  pub record Published (now : List Request) : Type 0 where
    pub read : PgpilotMetricLibrary
    pub written : PgpilotMetricLibrary
    pub condition : Condition
    pub fetched : Fetched (C.get_library req) read
    pub sent : now ≡ before ++ library_status_request written ∷ []
    pub same_meta : written.object_meta ≡ read.object_meta
    pub same_spec : written.spec ≡ read.spec
    pub observed : written.status.observed_generation ≡ read.object_meta.generation
    pub found : find_condition "Valid" written.status.conditions ≡ some condition
    pub valid :
        condition.status ≡ (if has_items read.spec.metrics then status_true else status_false)
    pub about : condition.observed_generation ≡ read.object_meta.generation

  -- The library was read, and written once, which the API server accepted; or it is absent.
  abbrev pub Settled : CtrlResult → Assertion
  Settled result now =
      (result ≡ no_requeue)
      × (((p : Published now) × Fetched (C.update_library_status p.written) tt)
          ⊎ ((e : Error) × Refused (C.get_library req) e
              × (is_not_found e ≡ true)
              × (now ≡ before)))

  -- The read was refused, or that write.
  abbrev pub Unsettled : Assertion
  Unsettled now =
      ((p : Published now) × (e : Error) × Refused (C.update_library_status p.written) e)
      ⊎ ((e : Error) × Refused (C.get_library req) e × (is_not_found e ≡ false) × (now ≡ before))

  module _ (lawful : IsLawful C) where
    assessed-Published :
        (l : PgpilotMetricLibrary) (now : List Request)
        → Fetched (C.get_library req) l
        → now ≡ before
        → (p : Published (now ++ library_status_request (assessed C l) ∷ [])) × (p.written
            ≡ assessed C l)
    unfolding assessed
    assessed-Published l now fetched same =
        let (d, found, status, _, _, about) = lawful.condition_self l.status.conditions _ in
        (
          record {
            read = l;
            written = assessed C l;
            condition = d;
            fetched = fetched;
            sent = ap (λ x. x ++ library_status_request (assessed C l) ∷ []) same;
            same_meta = refl;
            same_spec = refl;
            observed = refl;
            found = found;
            valid = status;
            about = about;
          },
          refl,
        )

    Triple-publish :
        (l : PgpilotMetricLibrary)
        → Fetched (C.get_library req) l
        → Triple (λ now. now ≡ before) (publish C l) Settled Unsettled
    unfolding publish
    Triple-publish l fetched =
        Triple-bind {R = λ _ now. (p : Published now) × (p.written ≡ assessed C l)} _ _
          (Triple-send _ (λ now p. assessed-Published l now fetched p))
          (λ _.
            Triple-bind
              {R = λ _ now. (p : Published now) × Fetched (C.update_library_status p.written) tt} _
              _
              (Triple-fetch _
                (λ a f now (p, e).
                  (p, subst (λ x. Fetched (C.update_library_status x) tt) (sym e) f))
                (λ x r now (p, e).
                  inl (p, x, subst (λ y. Refused (C.update_library_status y) x) (sym e) r)))
              (λ _. Triple-pure _ (λ now p. (refl, inl p))))

    Triple-after_get :
        (found : Result PgpilotMetricLibrary)
        → Triple
            (λ now. Answered (C.get_library req) found × (now ≡ before))
            (after_get C found)
            Settled
            Unsettled
    unfolding after_get
    Triple-after_get (ok l) = Triple-given _ λ fetched. Triple-publish l fetched
    Triple-after_get (err e) = Triple-given _ λ refused.
        Triple-if (is_not_found e) _ _
          (λ missing. Triple-pure _ (λ now p. (refl, inr (e, refused, missing, p))))
          (λ present. Triple-raise _ (λ now p. inr (e, refused, present, p)))

    Triple-reconcile : Triple (λ now. now ≡ before) (reconcile C req) Settled Unsettled
    unfolding reconcile
    Triple-reconcile = Triple-bind _ _ (Triple-read (C.get_library req)) Triple-after_get

-- With `meta.SetStatusCondition` as documented, a run of the library's `Reconcile` never panics. If
-- it returns without an error, then it asks for no requeue, and it has written the library's status
-- once, which the API server accepted, with the condition `Valid` true exactly if the library as read has metrics; or the library
-- was absent and nothing was written. If it returns an error, then the API server refused the read,
-- not for absence, and nothing was written, or it refused that one write.
pub reconcile-Settled :
    (C : Cluster)
    → IsLawful C
    → (req : NamespacedName) (s : Session C)
    → let (a, t) = reconcile C req s in
      Post (Settled C req s.requests) (Unsettled C req s.requests) a t.requests
reconcile-Settled C lawful req s = (Triple-reconcile C req s.requests lawful).at s refl
