-- ===== src/Kube/Meta.antt =====
-- k8s.io/apimachinery/pkg/apis/meta/v1 and k8s.io/apimachinery/pkg/types.
use pgpilot_operator.Base.{ℕ, String, Bool, Option, List}
use pgpilot_operator.Base.Dict.{Dict}

pub record TypeMeta : Type 0 where
  pub api_version : String
  pub kind : String

pub record OwnerReference : Type 0 where
  pub api_version : String
  pub kind : String
  pub name : String
  pub uid : String
  pub controller : Bool

pub record ObjectMeta : Type 0 where
  pub name : String
  pub namespace : String
  pub uid : String
  pub resource_version : String
  pub generation : ℕ
  pub deletion_timestamp : Option ℕ
  pub labels : Dict String String
  pub annotations : Dict String String
  pub finalizers : List String
  pub owner_references : List OwnerReference
  pub managed_fields : List String

pub record NamespacedName : Type 0 where
  pub name : String
  pub namespace : String

pub data ConditionStatus : Type 0 where
  status_true status_false status_unknown : ConditionStatus

-- `last_transition_time` is none for Go's zero time.
pub record Condition : Type 0 where
  pub condition_type : String
  pub status : ConditionStatus
  pub observed_generation : ℕ
  pub last_transition_time : Option ℕ
  pub reason : String
  pub message : String

pub record LabelSelector : Type 0 where
  pub match_labels : Dict String String

-- An `ObjectMeta` literal that gives these fields and leaves the others zero.
abbrev pub new_meta : String → String → Dict String String → Dict String String → ObjectMeta
new_meta name namespace labels annotations = record {
  name = name;
  namespace = namespace;
  uid = "";
  resource_version = "";
  generation = 0;
  deletion_timestamp = Option.none;
  labels = labels;
  annotations = annotations;
  finalizers = List.[];
  owner_references = List.[];
  managed_fields = List.[];
}
