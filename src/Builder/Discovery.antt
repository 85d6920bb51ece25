-- ===== src/Builder/Discovery.antt =====
-- internal/builder/discovery.go. The argument is what the discovery client returns for
-- monitoring.coreos.com/v1: an error, or the kinds of the API's resources.
pub mod Found
use pgpilot_operator.Base.{
  String, Bool, true, false, List, [], ◌∷◌, Result, ok, err, ◌==◌, string_eq, if◌then◌else◌,
}

unfoldable pub any_service_monitor : List String → Bool
any_service_monitor [] = false
any_service_monitor (kind ∷ kinds) =
    if kind == "ServiceMonitor" then true else any_service_monitor kinds

unfoldable pub has_service_monitor_crd : Result (List String) → Bool
has_service_monitor_crd (err e) = false
has_service_monitor_crd (ok kinds) = any_service_monitor kinds
