-- ===== src/Controller/Watch/Enqueued.antt =====
-- Which monitors a changed library enqueues.
use mathlib.Core.List.{Memᴰ}
use mathlib.Core.List.Memᴰ
use pgpilot_operator.Base.{
  String, ◌≡◌, refl, sym, ◌↔◌, ◌⊎◌, inl, inr, true, Bool-cases, List, [], ◌∷◌, Error, Result, ok,
  err, arith, ◌==◌, string_eq,
}
use pgpilot_operator.Kube.Meta.{NamespacedName}
use pgpilot_operator.Api.Metrics.{PgpilotMetricLibrary}
use pgpilot_operator.Api.Monitor.{LibraryRef, PgpilotMonitor}
use pgpilot_operator.Controller.Cluster.{Cluster}
use pgpilot_operator.Controller.Session.{Session, pure}
use pgpilot_operator.Controller.Triple.{
  Assertion, Post, Fetched, Refused, Answered, Triple, Triple-pure, Triple-bind, Triple-given,
  Triple-read,
}
use pgpilot_operator.Controller.Watch.{
  refers_to, requests_for, requests_of, WatchedObject, library_object, other_object,
  library_to_monitors,
}

-- A reference of the monitor has the name.
abbrev pub Names : String → PgpilotMonitor → Type 0
Names name m = (ref : LibraryRef) × Memᴰ ref m.spec.metrics.from_libraries × (ref.name ≡ name)

abbrev pub key : PgpilotMonitor → NamespacedName
key m = record { name = m.object_meta.name; namespace = m.object_meta.namespace }

refers_to_sound :
    (name : String) (refs : List LibraryRef)
    → refers_to name refs ≡ true
    → (ref : LibraryRef) × Memᴰ ref refs × (ref.name ≡ name)
unfolding refers_to
refers_to_sound name [] h = cc
refers_to_sound name (ref ∷ refs) h = elim (Bool-cases (ref.name == name)) [
  | inl same ↦ (ref, Memᴰ.head refl, ground arith)
  | inr differ ↦ let (r, p, e) = refers_to_sound name refs (rw differ at h) in (r, Memᴰ.tail p, e)
]

refers_to_complete :
    (name : String) (refs : List LibraryRef) (ref : LibraryRef)
    → Memᴰ ref refs
    → ref.name ≡ name
    → refers_to name refs ≡ true
unfolding refers_to
refers_to_complete name [] ref p h = elim p [ ]
refers_to_complete name (r ∷ refs) ref (Memᴰ.head e) h = ground arith
refers_to_complete name (r ∷ refs) ref (Memᴰ.tail p) h =
    ground (arith, refers_to_complete name refs ref p h)

requests_for_sound :
    (name : String) (ms : List PgpilotMonitor) (req : NamespacedName)
    → Memᴰ req (requests_for name ms)
    → (m : PgpilotMonitor) × Memᴰ m ms × Names name m × (req ≡ key m)
unfolding requests_for
requests_for_sound name [] req p = absurd (Memᴰ.not-nil p)
requests_for_sound name (m ∷ ms) req p =
    elim (Bool-cases (refers_to name m.spec.metrics.from_libraries)) [
      | inl named ↦ elim (Memᴰ.cases_cons (rw named at p)) [
        | inl e ↦ (m, Memᴰ.head refl, refers_to_sound name _ named, e)
        | inr q ↦ let (x, r, n, e) = requests_for_sound name ms req q in (x, Memᴰ.tail r, n, e)
      ]
      | inr other ↦
          let (x, r, n, e) = requests_for_sound name ms req (rw other at p) in
          (x, Memᴰ.tail r, n, e)
    ]

requests_for_complete :
    (name : String) (ms : List PgpilotMonitor) (m : PgpilotMonitor)
    → Memᴰ m ms
    → Names name m
    → Memᴰ (key m) (requests_for name ms)
unfolding requests_for
requests_for_complete name [] m p n = elim p [ ]
requests_for_complete name (x ∷ ms) m (Memᴰ.head e) (ref, p, q) =
    rw (sym e, refers_to_complete name m.spec.metrics.from_libraries ref p q) (Memᴰ.head refl)
requests_for_complete name (x ∷ ms) m (Memᴰ.tail p) n =
    elim (Bool-cases (refers_to name x.spec.metrics.from_libraries)) [
      | inl named ↦ rw named (Memᴰ.tail (requests_for_complete name ms m p n))
      | inr other ↦ rw other (requests_for_complete name ms m p n)
    ]

module _ (C : Cluster) (l : PgpilotMetricLibrary) where
  -- The requests are exactly those for the listed monitors that name the library.
  abbrev pub ExactlyNaming : List PgpilotMonitor → List NamespacedName → Type 0
  ExactlyNaming ms reqs =
      (req : NamespacedName)
      → Memᴰ req reqs
        ↔ ((m : PgpilotMonitor) × Memᴰ m ms × Names l.object_meta.name m × (req ≡ key m))

  -- The monitors of the library's namespace were listed, or the list was refused.
  abbrev pub Enqueued : List NamespacedName → Type 0
  Enqueued reqs =
      ((ms : List PgpilotMonitor) × Fetched (C.list_monitors l.object_meta.namespace) ms
        × ExactlyNaming ms reqs)
      ⊎ ((e : Error) × Refused (C.list_monitors l.object_meta.namespace) e × (reqs ≡ []))

  requests_of-Enqueued :
      (monitors : Result (List PgpilotMonitor))
      → Answered (C.list_monitors l.object_meta.namespace) monitors
      → Enqueued (requests_of l.object_meta.name monitors)
  requests_of-Enqueued (ok ms) fetched = inl (
    ms,
    fetched,
    λ req. (
      requests_for_sound l.object_meta.name ms req,
      λ (m, p, n, e). Memᴰ.cast e (requests_for_complete l.object_meta.name ms m p n),
    ),
  )
  requests_of-Enqueued (err e) refused = inr (e, refused, refl)

  Triple-library_to_monitors :
      {P E : Assertion}
      → Triple P (library_to_monitors C (library_object l)) (λ reqs now. Enqueued reqs × P now) E
  unfolding library_to_monitors
  Triple-library_to_monitors =
      Triple-bind _ _ (Triple-read (C.list_monitors l.object_meta.namespace)) (λ monitors.
        Triple-given _
          λ answered. Triple-pure _ (λ now p. (requests_of-Enqueued monitors answered, p)))

module _ (C : Cluster) where
  -- What an object enqueues: none, if it is no library.
  abbrev pub EnqueuedBy : WatchedObject → List NamespacedName → Type 0
  EnqueuedBy (library_object l) reqs = Enqueued C l reqs
  EnqueuedBy other_object reqs = reqs ≡ []

  -- A changed library enqueues exactly the monitors of its namespace that name it, as they were
  -- listed, and none if the list was refused; an object of another type enqueues none. The watch sends
  -- nothing, and never fails.
  pub library_to_monitors-Enqueued :
      (obj : WatchedObject) (s : Session C)
      → let (a, t) = library_to_monitors C obj s in
        Post (λ reqs now. EnqueuedBy obj reqs × (now ≡ s.requests)) (λ _. ⊥) a t.requests
  unfolding library_to_monitors pure
  library_to_monitors-Enqueued (library_object l) s =
      Triple.at (Triple-library_to_monitors C l {P = λ now. now ≡ s.requests}) s refl
  library_to_monitors-Enqueued other_object s = (refl, refl)
