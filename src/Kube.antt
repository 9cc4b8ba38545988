-- ===== src/Kube.antt =====
-- The Kubernetes API objects that the driver reads, with the fields that it uses:
-- ResourceClaim and its status (k8s.io/api/resource/v1), Pod (k8s.io/api/core/v1) and the device
-- that is returned to the kubelet (k8s.io/dynamic-resource-allocation/kubeletplugin).
use k8s_dra_driver.Common.{Bool, Option, List, String, Map, ℤ}

-- resource.Quantity: what its method `AsInt64` gives.
pub record Quantity : Type 0 where
  pub as_int64 : Option ℤ

-- DeviceRequestAllocationResult
pub record AllocationResult : Type 0 where
  pub request : String
  pub driver : String
  pub pool : String
  pub device : String
  pub admin_access : Option Bool
  pub consumed_capacity : Map Quantity

-- OpaqueDeviceConfiguration; `parameters` is the raw extension.
pub record OpaqueParameters : Type 0 where
  pub driver : String
  pub parameters : String

-- AllocationConfigSource
pub data ConfigSource : Type 0 where
  from_class from_claim : ConfigSource
  from_other : String → ConfigSource

-- DeviceAllocationConfiguration
pub record AllocationConfig : Type 0 where
  pub source : ConfigSource
  pub requests : List String
  pub opaque : Option OpaqueParameters

-- AllocationResult.Devices of the claim's status
pub record Allocation : Type 0 where
  pub results : List AllocationResult
  pub config : List AllocationConfig

-- ResourceClaimConsumerReference
pub record Consumer : Type 0 where
  pub resource : String
  pub name : String
  pub uid : String

-- ResourceClaimStatus; `Allocation` is a pointer.
pub record ClaimStatus : Type 0 where
  pub allocation : Option Allocation
  pub reserved_for : List Consumer

pub record ResourceClaim : Type 0 where
  pub uid : String
  pub name : String
  pub namespace : String
  pub status : ClaimStatus

-- kubeletplugin.NamespacedObject
pub record ClaimRef : Type 0 where
  pub uid : String
  pub name : String
  pub namespace : String

-- kubeletplugin.Device
pub record KubeletDevice : Type 0 where
  pub requests : List String
  pub pool_name : String
  pub device_name : String
  pub cdi_device_ids : List String

-- corev1.Container: its name and the names in `Resources.Claims`.
pub record Container : Type 0 where
  pub name : String
  pub claims : List String

-- corev1.PodResourceClaim
pub record PodClaim : Type 0 where
  pub name : String
  pub resource_claim_name : Option String
  pub resource_claim_template_name : Option String

-- corev1.PodResourceClaimStatus
pub record PodClaimStatus : Type 0 where
  pub name : String
  pub resource_claim_name : Option String

pub record Pod : Type 0 where
  pub name : String
  pub namespace : String
  pub uid : String
  pub resource_version : String
  pub node_name : String
  pub labels : Map String
  pub resource_claims : List PodClaim
  pub resource_claim_statuses : List PodClaimStatus
  pub containers : List Container
  pub init_containers : List Container
