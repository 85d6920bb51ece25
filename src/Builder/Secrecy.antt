-- ===== src/Builder/Secrecy.antt =====
-- Where credentials go: into the container's environment, and nowhere else.
use mathlib.Core.Option
use mathlib.Core.Option.{some-injective}
use pgpilot_operator.Base.{
  String, ◌≡◌, refl, ◌≢◌, ◌↔◌, ◌⊎◌, inl, inr, Bool, true, false, ◌&&◌, Option, none, some, List,
  string_eq, nonempty, if◌then◌else◌,
}
use pgpilot_operator.Kube.Objects.{EnvVar, Deployment}
use pgpilot_operator.Api.Monitor.{CredentialsSecretRef, DatabaseRef, PgpilotMonitor}
use pgpilot_operator.Builder.Library.{Library}
use pgpilot_operator.Builder.Deployment.{env_of_secret, build_env_vars}

-- The monitor with other credentials.
abbrev pub with_credentials :
    String → String → Option CredentialsSecretRef → PgpilotMonitor → PgpilotMonitor
with_credentials username password secret m = record m {
  spec = record m.spec {
    database = record m.spec.database {
      username = username;
      password = password;
      credentials_secret = secret;
    };
  };
}

-- Both inline fields are set, or a secret is named.
abbrev pub HasCredentials : DatabaseRef → Type 0
HasCredentials db =
    (nonempty db.username && nonempty db.password ≡ true)
    ⊎ ((ref : CredentialsSecretRef) × (db.credentials_secret ≡ some ref))

module _ (inline : List EnvVar) where
  abbrev env_if : Bool → Option CredentialsSecretRef → Option (List EnvVar)
  env_if inlined secret = if inlined then some inline else env_of_secret secret

  env_if-ne-none :
      (inlined : Bool) (secret : Option CredentialsSecretRef)
      → env_if inlined secret ≢ none
      → (inlined ≡ true) ⊎ ((ref : CredentialsSecretRef) × (secret ≡ some ref))
  env_if-ne-none true secret h = inl refl
  env_if-ne-none false none h = absurd (h refl)
  env_if-ne-none false (some ref) h = inr (ref, refl)

  env_if-of_source :
      (inlined : Bool) (secret : Option CredentialsSecretRef)
      → (inlined ≡ true) ⊎ ((ref : CredentialsSecretRef) × (secret ≡ some ref))
      → env_if inlined secret ≢ none
  env_if-of_source true secret h e = cc
  env_if-of_source false none (inl h) e = cc
  env_if-of_source false none (inr (ref, h)) e = cc
  env_if-of_source false (some ref) h e = cc

-- `buildEnvVars` returns, and does not dereference a nil pointer, exactly if the monitor has
-- credentials.
pub build_env_vars-HasCredentials :
    (m : PgpilotMonitor) → (build_env_vars m ≢ none) ↔ HasCredentials m.spec.database
unfolding build_env_vars
build_env_vars-HasCredentials m =
    let db = m.spec.database in
    let inlined : Bool = nonempty db.username && nonempty db.password in
    (
      env_if-ne-none _ inlined db.credentials_secret,
      env_if-of_source _ inlined db.credentials_secret,
    )
