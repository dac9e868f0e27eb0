-- ===== src/Csi.antt =====
-- The messages of the Container Storage Interface (github.com/container-storage-interface/spec), by
-- the fields that the driver reads and writes. A message that may be nil is an `Option`.
use vcd_csi.Prelude.{String, List, Bool, Option, none, some}
use vcd_csi.Prelude.Dict.{Dict}
use vcd_csi.Go.Int.{ℤ}

-- `VolumeCapability_AccessMode_Mode`
pub data Mode : Type 0 where
  unknown single_node_writer single_node_reader_only multi_node_reader_only multi_node_single_writer
        multi_node_multi_writer :
      Mode

pub record MountVolume : Type 0 where
  pub fs_type : String
  pub mount_flags : List String

-- `GetAccessType()`
pub data AccessType : Type 0 where
  unset : AccessType
  block : AccessType
  mount : MountVolume → AccessType

pub record VolumeCapability : Type 0 where
  pub access_mode : Option Mode
  pub access_type : AccessType

-- `GetAccessMode().GetMode()`, of a mode that may be nil
abbrev pub get_mode : VolumeCapability → Mode
get_mode capability = elim capability.access_mode [ none ↦ unknown | some m ↦ m ]

pub record CapacityRange : Type 0 where
  pub required_bytes : ℤ
  pub limit_bytes : ℤ

pub record CreateVolumeRequest : Type 0 where
  pub name : String
  pub capacity_range : Option CapacityRange
  pub volume_capabilities : List VolumeCapability
  pub parameters : Dict String

pub record Volume : Type 0 where
  pub capacity_bytes : ℤ
  pub volume_id : String
  pub accessible_topology : List (Dict String)

pub record ControllerPublishVolumeRequest : Type 0 where
  pub volume_id : String
  pub node_id : String
  pub volume_capability : Option VolumeCapability
  pub readonly : Bool

pub record ControllerExpandVolumeRequest : Type 0 where
  pub volume_id : String
  pub capacity_range : Option CapacityRange
  pub volume_capability : Option VolumeCapability

pub record ControllerExpandVolumeResponse : Type 0 where
  pub capacity_bytes : ℤ
  pub node_expansion_required : Bool

-- `ControllerServiceCapability_RPC_Type`
pub data ControllerCapability : Type 0 where
  create_delete_volume publish_unpublish_volume list_volumes expand_volume : ControllerCapability

-- `NodeServiceCapability_RPC_Type`
pub data NodeCapability : Type 0 where
  stage_unstage_volume expand_volume get_volume_stats : NodeCapability

-- `PluginCapability`
pub data PluginCapability : Type 0 where
  controller_service volume_accessibility_constraints offline_expansion : PluginCapability

pub record NodeStageVolumeRequest : Type 0 where
  pub volume_id : String
  pub staging_target_path : String
  pub volume_capability : Option VolumeCapability
  pub publish_context : Dict String

pub record NodePublishVolumeRequest : Type 0 where
  pub volume_id : String
  pub staging_target_path : String
  pub target_path : String
  pub volume_capability : Option VolumeCapability
  pub readonly : Bool
  pub publish_context : Dict String

-- `VolumeUsage_Unit`
pub data UsageUnit : Type 0 where
  in_bytes in_inodes : UsageUnit

pub record VolumeUsage : Type 0 where
  pub available : ℤ
  pub total : ℤ
  pub used : ℤ
  pub unit : UsageUnit

pub record NodeGetInfoResponse : Type 0 where
  pub node_id : String
  pub max_volumes_per_node : ℤ
  pub accessible_topology : Dict String
