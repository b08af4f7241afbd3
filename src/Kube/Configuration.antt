-- ===== src/Kube/Configuration.antt =====
-- The typed apply configurations, as the builders of client-go leave them: a field that the source
-- never sets is left out, and one that it sets in some objects only is an `Option` or a list.
use llm_inference_platform.Prelude.{String, Option, List}
use llm_inference_platform.Prelude.Int.{ℤ}
use llm_inference_platform.Prelude.Maps.{Map}
use llm_inference_platform.Kube.Meta.{OwnerReference, Quantity}
use llm_inference_platform.Kube.Dynamic.{Unstructured}

pub record ObjectMetaConfiguration : Type 0 where
  pub name : String
  pub namespace : String
  pub labels : Map String
  pub owner_references : List OwnerReference

pub record ServicePort : Type 0 where
  pub name : String
  pub protocol : String
  pub port : ℤ
  pub target_port : ℤ

pub record ServiceConfiguration : Type 0 where
  pub metadata : ObjectMetaConfiguration
  pub selector : Map String
  pub ports : List ServicePort

-- `selectors` are CEL expressions.
pub record ExactDeviceRequest : Type 0 where
  pub device_class_name : String
  pub allocation_mode : String
  pub count : ℤ
  pub selectors : List String

pub record DeviceRequest : Type 0 where
  pub name : String
  pub exactly : ExactDeviceRequest

pub record ClaimTemplateConfiguration : Type 0 where
  pub metadata : ObjectMetaConfiguration
  pub requests : List DeviceRequest

pub data ProbeHandler : Type 0 where
  http_get : String → ℤ → ProbeHandler
  exec : List String → ProbeHandler

pub record Probe : Type 0 where
  pub handler : ProbeHandler
  pub period_seconds : Option ℤ
  pub timeout_seconds : Option ℤ
  pub failure_threshold : Option ℤ

pub record EnvVar : Type 0 where
  pub name : String
  pub value : String

pub record ContainerPort : Type 0 where
  pub name : String
  pub container_port : ℤ

pub record VolumeMount : Type 0 where
  pub name : String
  pub mount_path : String

-- `claims` are the names of the pod's resource claims.
pub record ResourceRequirements : Type 0 where
  pub requests : Map Quantity
  pub claims : List String

pub record Container : Type 0 where
  pub name : String
  pub image : String
  pub command : List String
  pub args : List String
  pub env : List EnvVar
  pub ports : List ContainerPort
  pub volume_mounts : List VolumeMount
  pub resources : ResourceRequirements
  pub startup_probe : Probe
  pub readiness_probe : Probe
  pub liveness_probe : Probe

pub data VolumeSource : Type 0 where
  persistent_volume_claim : String → VolumeSource
  empty_dir : Option String → Option Quantity → VolumeSource

pub record Volume : Type 0 where
  pub name : String
  pub source : VolumeSource

pub record PodResourceClaim : Type 0 where
  pub name : String
  pub resource_claim_template_name : String

pub record PodSpec : Type 0 where
  pub containers : List Container
  pub volumes : List Volume
  pub resource_claims : List PodResourceClaim

pub record PodTemplate : Type 0 where
  pub labels : Map String
  pub annotations : Map String
  pub spec : PodSpec

pub record DeploymentConfiguration : Type 0 where
  pub metadata : ObjectMetaConfiguration
  pub replicas : Option ℤ
  pub selector : Option (Map String)
  pub template : Option PodTemplate

-- What `Apply` is given.
pub data ApplyConfiguration : Type 0 where
  deployment : DeploymentConfiguration → ApplyConfiguration
  service : ServiceConfiguration → ApplyConfiguration
  claim_template : ClaimTemplateConfiguration → ApplyConfiguration
  unstructured : Unstructured → ApplyConfiguration
