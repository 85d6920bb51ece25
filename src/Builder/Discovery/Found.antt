-- ===== src/Builder/Discovery/Found.antt =====
-- When the operator believes that ServiceMonitors can be created.
use mathlib.Core.List.{Memᴰ}
use mathlib.Core.Path.{subst}
use pgpilot_operator.Base.{
  String, ◌≡◌, refl, sym, ◌↔◌, inl, inr, true, Bool-cases, List, [], ◌∷◌, Result, ok, err,
  ok-injective, arith, ◌==◌, string_eq,
}
use pgpilot_operator.Builder.Discovery.{any_service_monitor, has_service_monitor_crd}

any_service_monitor_sound :
    (kinds : List String) → any_service_monitor kinds ≡ true → Memᴰ "ServiceMonitor" kinds
unfolding any_service_monitor
any_service_monitor_sound [] h = cc
any_service_monitor_sound (kind ∷ kinds) h = elim (Bool-cases (kind == "ServiceMonitor")) [
  | inl same ↦ Memᴰ.head (ground arith)
  | inr differ ↦ Memᴰ.tail (any_service_monitor_sound kinds (rw differ at h))
]

any_service_monitor_complete :
    (kinds : List String) → Memᴰ "ServiceMonitor" kinds → any_service_monitor kinds ≡ true
unfolding any_service_monitor
any_service_monitor_complete [] p = elim p [ ]
any_service_monitor_complete (kind ∷ kinds) (Memᴰ.head e) = ground arith
any_service_monitor_complete (kind ∷ kinds) (Memᴰ.tail p) =
    ground (arith, any_service_monitor_complete kinds p)

-- `HasServiceMonitorCRD` answers true exactly if the discovery succeeds and lists a resource of the
-- kind ServiceMonitor.
pub has_service_monitor_crd_iff :
    (r : Result (List String))
    → (has_service_monitor_crd r ≡ true)
      ↔ ((kinds : List String) × (r ≡ ok kinds) × Memᴰ "ServiceMonitor" kinds)
unfolding has_service_monitor_crd
has_service_monitor_crd_iff (err e) = ((λ h. cc), (λ (kinds, h, p). cc))
has_service_monitor_crd_iff (ok kinds) = (
  (λ h. (kinds, refl, any_service_monitor_sound kinds h)),
  (λ (ks, h, p).
      any_service_monitor_complete kinds (subst (Memᴰ "ServiceMonitor") (sym (ok-injective h)) p)),
)
