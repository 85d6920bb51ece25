-- ===== src/Builder/Labels.antt =====
-- internal/builder/labels.go
pub mod Precedence
use pgpilot_operator.Base.{String, ◌<>◌, List, [], ◌∷◌, string_eq}
use pgpilot_operator.Base.Dict.{Dict, copy}

abbrev pub label_app_name : String
label_app_name = "app.kubernetes.io/name"

abbrev pub label_app_instance : String
label_app_instance = "app.kubernetes.io/instance"

abbrev pub label_app_managed_by : String
label_app_managed_by = "app.kubernetes.io/managed-by"

abbrev pub label_app_component : String
label_app_component = "app.kubernetes.io/component"

abbrev pub label_monitor_name : String
label_monitor_name = "pgpilot.io/monitor"

abbrev pub annotation_config_hash : String
annotation_config_hash = "pgpilot.io/config-hash"

abbrev pub app_name : String
app_name = "pgpilot-monitor"

abbrev pub managed_by : String
managed_by = "pgpilot-operator"

unfoldable pub system_labels : String → Dict String String
system_labels monitor_name =
    (label_app_name, app_name)
    ∷ (label_app_instance, monitor_name)
    ∷ (label_app_managed_by, managed_by)
    ∷ (label_app_component, "pgwatch")
    ∷ (label_monitor_name, monitor_name)
    ∷ []

unfoldable pub merge_labels : Dict String String → Dict String String → Dict String String
merge_labels system user = copy (copy [] user) system

unfoldable pub merge_annotations : Dict String String → Dict String String → Dict String String
merge_annotations system user = copy (copy [] user) system

unfoldable pub resource_name : String → String
resource_name monitor_name = "pgpilot-" <> monitor_name
