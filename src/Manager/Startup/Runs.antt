-- ===== src/Manager/Startup/Runs.antt =====
-- How a run of `main` may end.
use mathlib.Core.List.{append_assoc, append-nil}
use mathlib.Core.Path.{subst}
use pgpilot_operator.Base.{
  ◌≡◌, refl, sym, ◌∙◌, ap, Bool, false, List, [], ◌∷◌, ◌++◌, All, Error, Result, ok, err,
}
use pgpilot_operator.Builder.Discovery.{has_service_monitor_crd}
use pgpilot_operator.Manager.Flags.{Flags}
use pgpilot_operator.Manager.Scheme.{SchemeLibrary}
use pgpilot_operator.Manager.Registration.{
  monitor_reconciler, library_reconciler, monitor_calls, library_calls,
}
use pgpilot_operator.Manager.Registration.Listed.{
  monitor_registration, library_registration, monitor_calls_lem,
}
use pgpilot_operator.Manager.Platform.{
  SetupCall, get_config, new_manager, new_discovery_client, ask_resources, complete,
  add_healthz_check, add_readyz_check, start, Platform, Process, Ending, value, exit, ending, Proc,
  must, ask, resume, ◌>>=◌,
}
use pgpilot_operator.Manager.Startup.{
  manager_options, setup_with_manager, detect_service_monitors, main,
}

module _ {S : SchemeLibrary} (P : Platform S) where
  -- All calls of a run that meets no error.
  abbrev pub plan : S.Scheme → Flags → Bool → List (SetupCall S)
  plan scheme flags enabled =
      get_config
      ∷ new_manager (manager_options scheme flags)
      ∷ new_discovery_client
      ∷ ask_resources
      ∷ complete (monitor_registration enabled) (monitor_reconciler enabled)
      ∷ complete library_registration library_reconciler
      ∷ add_healthz_check "healthz"
      ∷ add_readyz_check "readyz"
      ∷ start
      ∷ []

  -- The discovery may give the value of `ServiceMonitorEnabled`.
  abbrev pub Detected : Bool → Type 0
  Detected enabled = (w : P.World) × (has_service_monitor_crd (P.resources w).0 ≡ enabled)

  -- Only what was detected is handed to the reconciler of monitors.
  abbrev pub Sound : SetupCall S → Type 0
  Sound (complete calls (monitor_reconciler enabled)) = Detected enabled
  Sound (complete calls library_reconciler) = Unit
  Sound get_config = Unit
  Sound (new_manager options) = Unit
  Sound new_discovery_client = Unit
  Sound ask_resources = Unit
  Sound (add_healthz_check name) = Unit
  Sound (add_readyz_check name) = Unit
  Sound start = Unit

  -- A call other than the question for the resources was accepted.
  abbrev pub Accepted : SetupCall S → Type 0
  Accepted c = (w : P.World) × ((P.perform c w).0 ≡ ok tt)

  abbrev pub Taken : SetupCall S → Type 0
  Taken ask_resources = Unit
  Taken get_config = Accepted get_config
  Taken (new_manager options) = Accepted (new_manager options)
  Taken new_discovery_client = Accepted new_discovery_client
  Taken (complete calls r) = Accepted (complete calls r) × Sound (complete calls r)
  Taken (add_healthz_check name) = Accepted (add_healthz_check name)
  Taken (add_readyz_check name) = Accepted (add_readyz_check name)
  Taken start = Accepted start

  module _ (scheme : S.Scheme) (flags : Flags) (before : List (SetupCall S)) where
    -- The calls so far, all of them accepted.
    pub record Made (done now : List (SetupCall S)) : Type 0 where
      pub split : now ≡ before ++ done
      pub taken : All Taken done

    -- The run ended at the first call that was refused.
    pub record Stopped (now : List (SetupCall S)) : Type 0 where
      pub enabled : Bool
      pub done : List (SetupCall S)
      pub call : SetupCall S
      pub rest : List (SetupCall S)
      pub follows : done ++ call ∷ rest ≡ plan scheme flags enabled
      pub split : now ≡ before ++ (done ++ call ∷ [])
      pub taken : All Taken done
      pub sound : Sound call
      pub refused : (w : P.World) × (e : Error) × ((P.perform call w).0 ≡ err e)

    abbrev pub Post :
        {A : Type 0} → (A → List (SetupCall S) → Type 0) → Ending A → List (SetupCall S) → Type 0
    Post Q (value a) now = Q a now
    Post Q (exit code) now = (code ≡ 1) × Stopped now

    record Run {A : Type 0} (done : List (SetupCall S)) (m : Proc P A)
        (Q : A → List (SetupCall S) → Type 0) : Type 0 where
      at : (s : Process S P) → Made done s.calls → Post Q (m s).0 (m s).1.calls

    All-snoc :
        (cs : List (SetupCall S)) (c : SetupCall S)
        → All Taken cs
        → Taken c
        → All Taken (cs ++ c ∷ [])
    All-snoc [] c all t = (t, tt)
    All-snoc (d ∷ cs) c all t = (all.0, All-snoc cs c all.1 t)

    Made-snoc :
        {now : List (SetupCall S)} (done : List (SetupCall S)) (c : SetupCall S)
        → Made done now
        → Taken c
        → Made (done ++ c ∷ []) (now ++ c ∷ [])
    Made-snoc done c m t = record {
      split = ap (λ l. l ++ c ∷ []) m.split ∙ append_assoc before done (c ∷ []);
      taken = All-snoc done c m.taken t;
    }

    -- One call that must succeed, and what follows it.
    Run-must :
        {A : Type 0} {Q : A → List (SetupCall S) → Type 0} (enabled : Bool)
        (done : List (SetupCall S)) (c : SetupCall S) (rest : List (SetupCall S))
        (k : Unit {0} → Proc P A)
        → done ++ c ∷ rest ≡ plan scheme flags enabled
        → Sound c
        → (Accepted c → Taken c)
        → Run (done ++ c ∷ []) (k tt) Q
        → Run done (must c >>= k) Q
    unfolding must ◌>>=◌
    Run-must {A} {Q} enabled done c rest k follows sound taken h = record {
      at = λ s m. go (P.perform c s.world) refl m;
    }
      where
        go :
            {w : P.World} {now : List (SetupCall S)} (out : Result (Unit {0}) × P.World)
            → P.perform c w ≡ out
            → Made done now
            → let t : Process S P = record { world = out.1; calls = now ++ c ∷ [] } in
              let end = resume (ending out.0) k t in Post Q end.0 end.1.calls
        go {w} {now} (ok _, w') e m =
            h.at (record { world = w'; calls = now ++ c ∷ [] })
              (Made-snoc done c m (taken (w, ap (λ o. o.0) e)))
        go {w} (err x, w') e m = (
          refl,
          record {
            enabled = enabled;
            done = done;
            call = c;
            rest = rest;
            follows = follows;
            split = ap (λ l. l ++ c ∷ []) m.split ∙ append_assoc before done (c ∷ []);
            taken = m.taken;
            sound = sound;
            refused = (w, x, ap (λ o. o.0) e);
          },
        )

    Run-ask :
        {A : Type 0} {Q : A → List (SetupCall S) → Type 0} (done : List (SetupCall S))
        (k : Bool → Proc P A)
        → ((enabled : Bool) → Detected enabled → Run (done ++ ask_resources ∷ []) (k enabled) Q)
        → Run done (detect_service_monitors P >>= k) Q
    unfolding detect_service_monitors ask ◌>>=◌
    Run-ask done k h = record {
      at = λ s m.
          (h (has_service_monitor_crd (P.resources s.world).0) (s.world, refl)).at _
            (Made-snoc done ask_resources m tt);
    }

    -- Every call of the plan was made, and accepted.
    abbrev pub Served : Unit {0} → List (SetupCall S) → Type 0
    Served _ now = (enabled : Bool) × Made (plan scheme flags enabled) now

    -- The calls that the code makes for the monitors are those of the plan.
    Run-monitor :
        {A : Type 0} {Q : A → List (SetupCall S) → Type 0} {done : List (SetupCall S)}
        (enabled : Bool) (k : Unit {0} → Proc P A)
        → Run done
            (must (complete (monitor_registration enabled) (monitor_reconciler enabled)) >>= k)
            Q
        → Run done (must (complete (monitor_calls enabled) (monitor_reconciler enabled)) >>= k) Q
    Run-monitor {A} {Q} {done} enabled k =
        subst (λ calls. Run done (must (complete calls (monitor_reconciler enabled)) >>= k) Q)
          (monitor_calls_lem enabled)

    Run-main : Run [] (main P scheme flags) Served
    unfolding main setup_with_manager library_calls
    Run-main =
        Run-must false [] get_config _ _ refl tt (λ a. a)
          (Run-must false (get_config ∷ []) (new_manager (manager_options scheme flags)) _ _ refl tt
            (λ a. a)
            (Run-must false _ new_discovery_client _ _ refl tt (λ a. a)
              (Run-ask _ _ λ enabled detected. Run-monitor enabled _ (
                Run-must enabled _
                  (complete (monitor_registration enabled) (monitor_reconciler enabled)) _ _ refl
                  detected (λ a. (a, detected))
                  (Run-must enabled _ (complete library_registration library_reconciler) _ _ refl tt
                    (λ a. (a, tt))
                    (Run-must enabled _ (add_healthz_check "healthz") _ _ refl tt (λ a. a)
                      (Run-must enabled _ (add_readyz_check "readyz") _ _ refl tt (λ a. a)
                        (Run-must enabled _ start _ _ refl tt (λ a. a)
                          (record { at = λ s m. (enabled, m) })))))))))

    -- A run of `main`, from the parsed flags and the scheme, makes the calls of its plan one after the
    -- other. Either all of them were accepted and it returns, or it exits with code 1 at the first call
    -- that was refused, and makes no other; so it starts the manager only after both controllers and
    -- both checks are set up. The reconciler of monitors is told to create ServiceMonitors exactly if
    -- the discovery found their kind. Its controller is registered to own ConfigMaps, Deployments and
    -- Services, and exactly then ServiceMonitors too, and to watch the libraries.
    pub main-Served :
        (s : Process S P)
        → s.calls ≡ before
        → Post Served (main P scheme flags s).0 (main P scheme flags s).1.calls
    main-Served s e = Run-main.at s (record { split = e ∙ sym (append-nil before); taken = tt })
