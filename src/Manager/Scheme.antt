-- ===== src/Manager/Scheme.antt =====
-- api/v1/groupversion_info.go, the `init` functions of api/v1, and `init` of cmd/main.go.
use pgpilot_operator.Base.{String, List, [], ◌∷◌, ◌++◌, Result, ◌>>=◌}

pub record GroupVersion : Type 0 where
  pub group : String
  pub version : String

abbrev pub group_version : GroupVersion
group_version = record { group = "pgpilot.io"; version = "v1" }

-- The types that the two files hand to `SchemeBuilder.Register`.
abbrev pub library_types : List String
library_types = "PgpilotMetricLibrary" ∷ "PgpilotMetricLibraryList" ∷ []

abbrev pub monitor_types : List String
monitor_types = "PgpilotMonitor" ∷ "PgpilotMonitorList" ∷ []

-- `runtime.Scheme`, the schemes of client-go and of prometheus-operator, and controller-runtime's
-- `scheme.Builder`, which adds the types that were registered with it.
pub record SchemeLibrary : Type 1 where
  pub Scheme : Type 0
  pub new_scheme : Scheme
  pub add_client_go : Scheme → Result Scheme
  pub add_monitoring : Scheme → Result Scheme
  pub add_known_types : GroupVersion → List String → Scheme → Result Scheme

module _ (S : SchemeLibrary) where
  unfoldable pub add_to_scheme : S.Scheme → Result S.Scheme
  add_to_scheme = S.add_known_types group_version (library_types ++ monitor_types)

  -- An error makes `utilruntime.Must` panic.
  unfoldable pub init_scheme : Result S.Scheme
  init_scheme = do s1 ← S.add_client_go S.new_scheme; s2 ← add_to_scheme s1; S.add_monitoring s2
