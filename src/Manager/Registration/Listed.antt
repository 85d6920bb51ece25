-- ===== src/Manager/Registration/Listed.antt =====
-- The registrations of both controllers, written out call by call.
use pgpilot_operator.Base.{◌≡◌, refl, Bool, true, false, List, [], ◌∷◌}
use pgpilot_operator.Manager.Registration.{
  config_map_type, deployment_type, service_type, service_monitor_type, monitor_type, library_type,
  BuilderCall, for_type, owns, watches, named, monitor_calls,
}

-- What the controller of monitors is to own and to watch, where ServiceMonitors are known to the API
-- server and where they are not.
abbrev pub monitor_registration : Bool → List BuilderCall
monitor_registration true =
    for_type monitor_type
    ∷ owns config_map_type
    ∷ owns deployment_type
    ∷ owns service_type
    ∷ owns service_monitor_type
    ∷ watches library_type
    ∷ named "pgpilotmonitor"
    ∷ []
monitor_registration false =
    for_type monitor_type
    ∷ owns config_map_type
    ∷ owns deployment_type
    ∷ owns service_type
    ∷ watches library_type
    ∷ named "pgpilotmonitor"
    ∷ []

abbrev pub library_registration : List BuilderCall
library_registration = for_type library_type ∷ named "pgpilotmetriclibrary" ∷ []

pub monitor_calls_lem : (enabled : Bool) → monitor_registration enabled ≡ monitor_calls enabled
unfolding monitor_calls
monitor_calls_lem true = refl
monitor_calls_lem false = refl
