-- ===== src/Kube/Objects.antt =====
-- k8s.io/api/core/v1, k8s.io/api/apps/v1, and the ServiceMonitor of prometheus-operator.
use pgpilot_operator.Base.{String, Bool, Option, List}
use pgpilot_operator.Base.Dict.{Dict}
use pgpilot_operator.Base.Int.{ℤ}
use pgpilot_operator.Kube.Meta.{TypeMeta, ObjectMeta, LabelSelector}

pub record ConfigMap : Type 0 where
  pub type_meta : TypeMeta
  pub object_meta : ObjectMeta
  pub entries : Dict String String

pub data IntOrString : Type 0 where
  from_int : ℤ → IntOrString
  from_string : String → IntOrString

pub data Protocol : Type 0 where
  tcp udp sctp : Protocol

pub record SecretKeySelector : Type 0 where
  pub name : String
  pub key : String

-- `value_from` holds a `secretKeyRef`, the one source that the operator uses.
pub record EnvVar : Type 0 where
  pub name : String
  pub value : String
  pub value_from : Option SecretKeySelector

pub record ContainerPort : Type 0 where
  pub name : String
  pub container_port : ℤ
  pub protocol : Protocol

pub record ResourceRequirements : Type 0 where
  pub limits : Dict String String
  pub requests : Dict String String

-- A probe of a TCP socket.
pub record Probe : Type 0 where
  pub tcp_socket_port : IntOrString
  pub initial_delay_seconds : ℤ
  pub period_seconds : ℤ
  pub timeout_seconds : ℤ
  pub success_threshold : ℤ
  pub failure_threshold : ℤ

pub record SecurityContext : Type 0 where
  pub run_as_non_root : Bool
  pub run_as_user : ℤ
  pub read_only_root_filesystem : Bool
  pub allow_privilege_escalation : Bool
  pub drop_capabilities : List String

pub record VolumeMount : Type 0 where
  pub name : String
  pub mount_path : String
  pub read_only : Bool

pub record Container : Type 0 where
  pub name : String
  pub image : String
  pub args : List String
  pub env : List EnvVar
  pub ports : List ContainerPort
  pub resources : ResourceRequirements
  pub liveness_probe : Probe
  pub readiness_probe : Probe
  pub security_context : SecurityContext
  pub volume_mounts : List VolumeMount

pub data VolumeSource : Type 0 where
  config_map_volume : String → VolumeSource
  empty_dir : VolumeSource

pub record Volume : Type 0 where
  pub name : String
  pub source : VolumeSource

pub record PodSpec : Type 0 where
  pub containers : List Container
  pub volumes : List Volume
  pub run_as_non_root : Bool

-- The pod template's own metadata has labels and annotations only.
pub record PodTemplateSpec : Type 0 where
  pub labels : Dict String String
  pub annotations : Dict String String
  pub spec : PodSpec

pub record Deployment : Type 0 where
  pub type_meta : TypeMeta
  pub object_meta : ObjectMeta
  pub replicas : ℤ
  pub selector : LabelSelector
  pub template : PodTemplateSpec

pub data ServiceType : Type 0 where
  cluster_ip node_port load_balancer external_name : ServiceType

pub record ServicePort : Type 0 where
  pub name : String
  pub protocol : Protocol
  pub port : ℤ
  pub target_port : IntOrString

pub record Service : Type 0 where
  pub type_meta : TypeMeta
  pub object_meta : ObjectMeta
  pub service_type : ServiceType
  pub selector : Dict String String
  pub ports : List ServicePort

pub record Endpoint : Type 0 where
  pub port : String
  pub interval : String
  pub scrape_timeout : String

pub record ServiceMonitor : Type 0 where
  pub type_meta : TypeMeta
  pub object_meta : ObjectMeta
  pub selector : LabelSelector
  pub match_namespaces : List String
  pub endpoints : List Endpoint
