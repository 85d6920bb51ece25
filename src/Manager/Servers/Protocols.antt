-- ===== src/Manager/Servers/Protocols.antt =====
-- Which protocols and which checks the two servers offer.
use pgpilot_operator.Base.{
  ◌≡◌, refl, Bool, true, false, Bool-cases, inl, inr, List, [], ◌∷◌, nonempty, arith, ap, ◌∙◌,
  string_eq, if◌then◌else◌,
}
use pgpilot_operator.Manager.Flags.{Flags}
use pgpilot_operator.Manager.Servers.{
  TlsConfig, TlsOption, disable_http2, tls_opts, webhook_options, metrics_options,
}

-- A server applies its options one after the other.
abbrev pub apply_all : List TlsOption → TlsConfig → TlsConfig
apply_all [] c = c
apply_all (f ∷ fs) c = apply_all fs (f c)

protocols :
    (on : Bool) (c : TlsConfig)
    → (apply_all (if on then [] else disable_http2 ∷ []) c).next_protos
      ≡ (if on then c.next_protos else "http/1.1" ∷ [])
protocols true c = refl
protocols false c = refl

webhook_options-tls_opts : (flags : Flags) → (webhook_options flags).tls_opts ≡ tls_opts flags
unfolding webhook_options
webhook_options-tls_opts flags = elim (Bool-cases (nonempty flags.webhook_cert_path)) [
  | inl e ↦ rw e refl
  | inr e ↦ rw e refl
]

metrics_options-tls_opts : (flags : Flags) → (metrics_options flags).tls_opts ≡ tls_opts flags
unfolding metrics_options
metrics_options-tls_opts flags = ground arith

metrics_options-authorized :
    (flags : Flags) → (metrics_options flags).authorized ≡ (metrics_options flags).secure_serving
unfolding metrics_options
metrics_options-authorized flags = ground arith

-- Whatever the other flags are, neither server offers anything but HTTP/1.1 over TLS, unless HTTP/2 is
-- enabled, and then both leave the protocols as they are; and the metrics server asks for
-- authentication and authorization exactly if it serves over TLS.
pub server_protocols :
    (flags : Flags) (c : TlsConfig)
    → let protocols = if flags.enable_http2 then c.next_protos else "http/1.1" ∷ [] in
      ((apply_all (webhook_options flags).tls_opts c).next_protos ≡ protocols)
      × ((apply_all (metrics_options flags).tls_opts c).next_protos ≡ protocols)
      × ((metrics_options flags).authorized ≡ (metrics_options flags).secure_serving)
server_protocols flags c = (
  ap (λ fs. (apply_all fs c).next_protos) (webhook_options-tls_opts flags)
      ∙ protocols flags.enable_http2 c,
  ap (λ fs. (apply_all fs c).next_protos) (metrics_options-tls_opts flags)
      ∙ protocols flags.enable_http2 c,
  metrics_options-authorized flags,
)
