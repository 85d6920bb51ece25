-- ===== src/Tests/Watching.antt =====
-- A changed library and the monitor `orders`, against an API server that grants every request.
use mathlib.Core.List.{Memᴰ}
use mathlib.Core.Path.{subst}
use pgpilot_operator.Base.{◌≡◌, refl, sym, ap, true, some, List, [], ok-injective, string_eq}
use pgpilot_operator.Base.Dict.{lookup}
use pgpilot_operator.Kube.Meta.{NamespacedName}
use pgpilot_operator.Builder.Metrics.{MetricDef, merge_metrics}
use pgpilot_operator.Controller.Session.{done}
use pgpilot_operator.Controller.Watch.{library_object, library_to_monitors}
use pgpilot_operator.Controller.Watch.Enqueued.{key}
use pgpilot_operator.Controller.Watch.Arrival.{library_to_monitors-Delivered}
use pgpilot_operator.Tests.Data.{plain, orders, shared, sizes}
use pgpilot_operator.Tests.Controllers.{granting, start, delivered, granting-orders}

library_to_monitors-Delivered_example :
    let d = delivered.2 in
    ((reqs : List NamespacedName) × ((library_to_monitors granting (library_object shared) start).0
        ≡ done reqs)
      × Memᴰ (key orders) reqs)
    × ((def : MetricDef) × (lookup "table_sizes"
            (merge_metrics plain d.monitor.spec.metrics d.libraries).definitions
          ≡ some def))
library_to_monitors-Delivered_example =
    library_to_monitors-Delivered granting plain shared orders start
      (λ e (w, q). cc, λ ms (w, q). subst (λ l. Memᴰ orders l) (ok-injective q) (Memᴰ.head refl))
      (record { name = "common" }, Memᴰ.head refl, refl) true [] _ delivered.2
      (ap (λ m. m.spec) (granting-orders delivered.2.monitor delivered.2.current))
      (λ x (w, q). sym (ok-injective q)) sizes (Memᴰ.head refl)
