-- ===== src/Tests/Managing.antt =====
-- The manager on a platform that accepts every call.
use pgpilot_operator.Base.{ℕ, String, ◌≡◌, refl, true, List, [], ◌∷◌, ◌++◌, ok, map, string_eq}
use pgpilot_operator.Manager.Flags.{default_flags}
use pgpilot_operator.Manager.Servers.{webhook_options, metrics_options}
use pgpilot_operator.Manager.Servers.Protocols.{apply_all, server_protocols}
use pgpilot_operator.Manager.Scheme.{SchemeLibrary}
use pgpilot_operator.Manager.Registration.{monitor_calls}
use pgpilot_operator.Manager.Registration.Owned.{
  identity, expected, owned_types, Delivered-owned_types,
}
use pgpilot_operator.Manager.Platform.{Platform, Process}
use pgpilot_operator.Manager.Startup.{main}
use pgpilot_operator.Manager.Startup.Runs.{Post, Served, main-Served}
use pgpilot_operator.Tests.Data.{plain, orders_key}
use pgpilot_operator.Tests.Controllers.{granting, delivered}

server_protocols_example :
    ((apply_all
        (webhook_options default_flags).tls_opts
        (record { next_protos = "h2" ∷ [] })).next_protos
      ≡ "http/1.1" ∷ [])
    × ((apply_all
          (metrics_options default_flags).tls_opts
          (record { next_protos = "h2" ∷ [] })).next_protos
        ≡ "http/1.1" ∷ [])
    × ((metrics_options default_flags).authorized ≡ (metrics_options default_flags).secure_serving)
server_protocols_example = server_protocols default_flags (record { next_protos = "h2" ∷ [] })

abbrev names_only : SchemeLibrary
names_only = record {
  Scheme = List String;
  new_scheme = [];
  add_client_go = λ s. ok ("Pod" ∷ s);
  add_monitoring = λ s. ok ("ServiceMonitor" ∷ s);
  add_known_types = λ gv types s. ok (types ++ s);
}

abbrev accepting : Platform names_only
accepting = record {
  World = ℕ;
  perform = λ c w. (ok tt, w);
  resources = λ w. (ok ("PodMonitor" ∷ "ServiceMonitor" ∷ []), w);
}

abbrev launched : Process names_only accepting
launched = record { world = 0; calls = [] }

main-Served_example :
    let (a, t) = main accepting [] default_flags launched in
    Post accepting [] default_flags [] (Served accepting [] default_flags []) a t.calls
main-Served_example = main-Served accepting [] default_flags [] launched refl

Delivered-owned_types_example :
    map identity (delivered.2).converged.objects ≡ map expected (owned_types (monitor_calls true))
Delivered-owned_types_example =
    Delivered-owned_types granting plain true orders_key [] _ delivered.2
