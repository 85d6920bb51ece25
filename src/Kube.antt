-- ===== src/Kube.antt =====
-- The Kubernetes types whose values the operator builds or reads, with the fields that it sets or
-- reads. They are declared by k8s.io/api, apimachinery, controller-runtime and prometheus-operator.
pub mod Meta
pub mod Objects
