-- ===== src/Controller/Monitor/Statuses/Generation.antt =====
-- The condition, the event and the hash after the ConfigMap was applied.
use Prim.Native.String.{len}
use pgpilot_operator.Base.{
  ◌≤◌, String, ◌≡◌, ◌≢◌, refl, Bool, false, List, ok, ◌==◌, string_eq, arith,
}
use pgpilot_operator.Kube.Meta.{NamespacedName, status_true}
use pgpilot_operator.Kube.Objects.{ConfigMap}
use pgpilot_operator.Api.Metrics.{PgpilotMetricLibrary}
use pgpilot_operator.Api.Monitor.{PgpilotMonitorStatus, PgpilotMonitor}
use pgpilot_operator.Builder.Library.{Library}
use pgpilot_operator.Builder.Metrics.{merge_metrics}
use pgpilot_operator.Builder.ConfigMap.{build_config_map}
use pgpilot_operator.Controller.Cluster.{Cluster, IsLawful}
use pgpilot_operator.Controller.Session.{Request, or_panic}
use pgpilot_operator.Controller.Client.{set_condition}
use pgpilot_operator.Controller.Triple.{
  Triple, Triple-pure, Triple-if, Triple-bind, Triple-send, Triple-or_panic,
}
use pgpilot_operator.Controller.Monitor.{short_hash, config_generated}
use pgpilot_operator.Controller.Monitor.Status.{with_status, short_hash-ne-none}
use pgpilot_operator.Controller.Monitor.Validation.{ResolvedAll}
use pgpilot_operator.Controller.Monitor.Outcome.{Current}
use pgpilot_operator.Controller.Monitor.Statuses.{
  Tells, credentials_reason, Checked, new_config, set_condition-Tells, set_condition-other,
}
use pgpilot_operator.Controller.Monitor.Statuses.Account.{Written-append}
use pgpilot_operator.Controller.Monitor.Statuses.Checks.{Sent}
use pgpilot_operator.Controller.Monitor.Statuses.Observation.{Generated}

reachable_differs : ◌≢◌ {A = String} "DatabaseReachable" "ConfigGenerated"
reachable_differs = cc

hash_differs :
    (m : PgpilotMonitor) (st : PgpilotMonitorStatus) (hash : String)
    → st.config_hash ≡ m.status.config_hash
    → (st.config_hash == hash) ≡ false
    → hash ≢ m.status.config_hash
hash_differs m st hash same differ = ground (arith, same, differ)

module _ (C : Cluster) (lib : Library) (lawful : IsLawful C) (enabled : Bool) (req : NamespacedName)
    (before : List Request) (m : PgpilotMonitor) (current : Current C lib req m) where
  abbrev S : List Request → Type 0
  S = Sent C lib lawful enabled req before m current

  set_condition-Generated :
      (st : PgpilotMonitorStatus) (message hash : String)
      → Checked m st
      → let st1 =
          (set_condition C
            (with_status m st)
            "ConfigGenerated"
            status_true
            "ConfigMapUpdated"
            message).status in
        Tells "ConfigGenerated" status_true "ConfigMapUpdated" st1
        × Tells "DatabaseReachable" status_true (credentials_reason m.spec.database) st1
  set_condition-Generated st message hash checked = (
    set_condition-Tells C lawful (with_status m st) "ConfigGenerated" status_true "ConfigMapUpdated"
        message,
    set_condition-other C lawful (with_status m st) "ConfigGenerated" status_true "ConfigMapUpdated"
        message "DatabaseReachable" _ status_true reachable_differs checked.reachable,
  )

  pub Triple-config_generated-Sent :
      (st : PgpilotMonitorStatus) (name hash : String)
      → 12 ≤ len hash
      → Checked m st
      → (libraries : List PgpilotMetricLibrary) (cm : ConfigMap)
      → ResolvedAll C m m.spec.metrics.from_libraries libraries
      → build_config_map lib m (merge_metrics lib m.spec.metrics libraries) ≡ ok (cm, hash)
      → Triple S
          (config_generated C lib (with_status m st) name hash)
          (λ m1 now.
            ((st1 : PgpilotMonitorStatus) × (m1 ≡ with_status m st1) × Generated m hash st1)
            × S now)
          S
  unfolding config_generated set_condition
  Triple-config_generated-Sent st name hash long checked libraries cm resolved built =
      Triple-bind {R = λ _. S} (or_panic (short_hash hash)) _
        (Triple-or_panic (short_hash hash) (short_hash-ne-none hash long) (λ a e l p. p))
        (λ short.
          let (told, reachable) = set_condition-Generated st _ hash checked in
          Triple-if (st.config_hash == hash) _ _
            (λ same. Triple-pure _ (λ l p. (
              (
                _,
                refl,
                record {
                  flag = checked.flag;
                  same_hash = ground (arith, same);
                  generated = told;
                  reachable = reachable;
                },
              ),
              p,
            )))
            (λ differ.
              let news =
                new_config libraries cm hash resolved built
                  (hash_differs m st hash checked.same_hash differ) in
              Triple-bind {R = λ _. S} _ _
                (Triple-send _ (λ l p. Written-append C lib _ ((m, current, news, refl), tt) p))
                (λ _. Triple-pure _ (λ l p. (
                  (
                    _,
                    refl,
                    record {
                      flag = checked.flag;
                      same_hash = refl;
                      generated = told;
                      reachable = reachable;
                    },
                  ),
                  p,
                )))))
