-- ===== src/Manager/Servers.antt =====
-- cmd/main.go: the options of the webhook server and of the metrics server.
pub mod Protocols
use pgpilot_operator.Base.{
  String, Bool, true, false, List, [], ◌∷◌, ◌==◌, string_eq, nonempty, if◌then◌else◌,
}
use pgpilot_operator.Manager.Flags.{Flags}

-- `tls.Config`, with the field that the code sets.
pub record TlsConfig : Type 0 where
  pub next_protos : List String

abbrev pub TlsOption : Type 0
TlsOption = TlsConfig → TlsConfig

abbrev pub disable_http2 : TlsOption
disable_http2 c = record c { next_protos = "http/1.1" ∷ [] }

-- `tlsOpts`, which both servers are given
abbrev pub tls_opts : Flags → List TlsOption
tls_opts flags = if flags.enable_http2 then [] else disable_http2 ∷ []

-- `webhook.Options`
pub record WebhookOptions : Type 0 where
  pub tls_opts : List TlsOption
  pub cert_dir : String
  pub cert_name : String
  pub key_name : String

unfoldable pub webhook_options : Flags → WebhookOptions
webhook_options flags =
    let plain : WebhookOptions = record {
      tls_opts = tls_opts flags;
      cert_dir = "";
      cert_name = "";
      key_name = "";
    } in
    if nonempty flags.webhook_cert_path
    then record plain {
      cert_dir = flags.webhook_cert_path;
      cert_name = flags.webhook_cert_name;
      key_name = flags.webhook_cert_key;
    }
    else plain

-- `metricsserver.Options`. `authorized` tells whether the `FilterProvider` is
-- `filters.WithAuthenticationAndAuthorization` or nil.
pub record MetricsOptions : Type 0 where
  pub bind_address : String
  pub secure_serving : Bool
  pub tls_opts : List TlsOption
  pub authorized : Bool
  pub cert_dir : String
  pub cert_name : String
  pub key_name : String

unfoldable pub metrics_options : Flags → MetricsOptions
metrics_options flags =
    let plain : MetricsOptions = record {
      bind_address = flags.metrics_addr;
      secure_serving = flags.secure_metrics;
      tls_opts = tls_opts flags;
      authorized = false;
      cert_dir = "";
      cert_name = "";
      key_name = "";
    } in
    let filtered : MetricsOptions =
      if flags.secure_metrics then record plain { authorized = true } else plain in
    if nonempty flags.metrics_cert_path
    then record filtered {
      cert_dir = flags.metrics_cert_path;
      cert_name = flags.metrics_cert_name;
      key_name = flags.metrics_cert_key;
    }
    else filtered
