-- ===== src/Manager/Platform.antt =====
-- The calls of controller-runtime and client-go that `main` makes, and how a process ends.
use pgpilot_operator.Base.{ℕ, String, Bool, List, [], ◌∷◌, ◌++◌, Result, ok, err}
use pgpilot_operator.Manager.Servers.{WebhookOptions, MetricsOptions}
use pgpilot_operator.Manager.Scheme.{SchemeLibrary}
use pgpilot_operator.Manager.Registration.{BuilderCall, Reconciler}

-- `ctrl.Options`
pub record ManagerOptions (S : SchemeLibrary) : Type 0 where
  pub scheme : S.Scheme
  pub metrics : MetricsOptions
  pub webhook_server : WebhookOptions
  pub health_probe_bind_address : String
  pub leader_election : Bool
  pub leader_election_id : String

-- In order of their use: `ctrl.GetConfigOrDie` and `ctrl.NewManager`; the discovery client and its
-- question for monitoring.coreos.com/v1; `Complete`; the two checks; `Start`.
pub data SetupCall (S : SchemeLibrary) : Type 0 where
  get_config : SetupCall S
  new_manager : ManagerOptions S → SetupCall S
  new_discovery_client : SetupCall S
  ask_resources : SetupCall S
  complete : List BuilderCall → Reconciler → SetupCall S
  add_healthz_check : String → SetupCall S
  add_readyz_check : String → SetupCall S
  start : SetupCall S

-- What surrounds the process. `resources` answers `ask_resources` with the kinds of the API's
-- resources, and `perform` carries out the other calls.
pub record Platform (S : SchemeLibrary) : Type 1 where
  pub World : Type 0
  pub perform : SetupCall S → World → Result (Unit {0}) × World
  pub resources : World → Result (List String) × World

-- A process has made its calls, and runs on or has ended with a code.
pub record Process (S : SchemeLibrary) (P : Platform S) : Type 0 where
  pub world : P.World
  pub calls : List (SetupCall S)

pub data Ending (A : Type 0) : Type 0 where
  value : A → Ending A
  exit : ℕ → Ending A

-- `os.Exit(1)` on an error
abbrev pub ending : Result (Unit {0}) → Ending (Unit {0})
ending (ok _) = value tt
ending (err e) = exit 1

module _ {S : SchemeLibrary} (P : Platform S) where
  abbrev pub Proc : Type 0 → Type 0
  Proc A = Process S P → Ending A × Process S P

module _ {S : SchemeLibrary} {P : Platform S} where
  abbrev pub finish : {A : Type 0} → A → Proc P A
  finish a s = (value a, s)

  -- `if err != nil { setupLog.Error(…); os.Exit(1) }`
  unfoldable pub must : SetupCall S → Proc P (Unit {0})
  must c s =
      let (r, w) = P.perform c s.world in
      (ending r, record { world = w; calls = s.calls ++ c ∷ [] })

  -- The answer is handed on, be it an error.
  unfoldable pub ask : Proc P (Result (List String))
  ask s =
      let (r, w) = P.resources s.world in
      (value r, record { world = w; calls = s.calls ++ ask_resources ∷ [] })

module _ {S : SchemeLibrary} {P : Platform S} {A B : Type 0} where
  abbrev pub resume : Ending A → (A → Proc P B) → Proc P B
  resume (value a) f s = f a s
  resume (exit code) f s = (exit code, s)

  infixl 5 ◌>>=◌ ◌>>◌
  unfoldable pub ◌>>=◌ : Proc P A → (A → Proc P B) → Proc P B
  ◌>>=◌ m f s = let (a, t) = m s in resume a f t

  abbrev pub ◌>>◌ : Proc P A → Proc P B → Proc P B
  m >> n = m >>= λ _. n
