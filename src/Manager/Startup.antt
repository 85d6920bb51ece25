-- ===== src/Manager/Startup.antt =====
-- cmd/main.go: `main`, from the flags that were parsed and the scheme that `init` made.
pub mod Runs
use pgpilot_operator.Base.{String, Bool, List, [], ◌∷◌, Result}
use pgpilot_operator.Builder.Discovery.{has_service_monitor_crd}
use pgpilot_operator.Manager.Flags.{Flags}
use pgpilot_operator.Manager.Servers.{webhook_options, metrics_options}
use pgpilot_operator.Manager.Scheme.{SchemeLibrary}
use pgpilot_operator.Manager.Registration.{
  Reconciler, monitor_reconciler, library_reconciler, setup_calls,
}
use pgpilot_operator.Manager.Platform.{
  ManagerOptions, SetupCall, get_config, new_manager, new_discovery_client, ask_resources, complete,
  add_healthz_check, add_readyz_check, start, Platform, Proc, finish, must, ask, ◌>>=◌, ◌>>◌,
}

module _ {S : SchemeLibrary} where
  unfoldable pub manager_options : S.Scheme → Flags → ManagerOptions S
  manager_options scheme flags = record {
    scheme = scheme;
    metrics = metrics_options flags;
    webhook_server = webhook_options flags;
    health_probe_bind_address = flags.probe_addr;
    leader_election = flags.enable_leader_election;
    leader_election_id = "21051230.io";
  }

module _ {S : SchemeLibrary} (P : Platform S) where
  -- `(…).SetupWithManager(mgr)`
  unfoldable pub setup_with_manager : Reconciler → Proc P (Unit {0})
  setup_with_manager r = must (complete (setup_calls r) r)

  -- `builder.HasServiceMonitorCRD(dc)`
  unfoldable pub detect_service_monitors : Proc P Bool
  detect_service_monitors = do kinds ← ask; finish (has_service_monitor_crd kinds)

  unfoldable pub main : S.Scheme → Flags → Proc P (Unit {0})
  main scheme flags = do
    must get_config
    must (new_manager (manager_options scheme flags))
    must new_discovery_client
    service_monitor_enabled ← detect_service_monitors
    setup_with_manager (monitor_reconciler service_monitor_enabled)
    setup_with_manager library_reconciler
    must (add_healthz_check "healthz")
    must (add_readyz_check "readyz")
    must start
    finish tt
