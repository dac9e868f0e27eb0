-- ===== src/Cloud.antt =====
-- The vCloud Director library (github.com/vmware/go-vcloud-director/v2), which the client calls and
-- the repository does not hold: the fields that the client reads of its values, and its operations
-- over an unknown state `W` of the cloud. A pointer to one of its objects is an address.
use vcd_csi.Prelude.{ℕ, String, List, Bool, Option}
use vcd_csi.Go.Int.{ℤ}
use vcd_csi.Go.Error.{Error}
use vcd_csi.Go.Exec.{Result}
use vcd_csi.Config.{Credentials}

-- the address of a `govcd.Vdc`, `govcd.Org`, `govcd.VApp` or `govcd.Task`
abbrev pub Handle : Type 0
Handle = ℕ

-- `types.Reference`
pub record Reference : Type 0 where
  pub mime : String
  pub name : String
  pub href : String

-- `types.ResourceReference`, an entry of a virtual data centre
pub record ResourceEntity : Type 0 where
  pub mime : String
  pub name : String
  pub href : String

-- `govcd.Disk`, by the fields of its `Disk`
pub record Disk : Type 0 where
  pub mime : String
  pub name : String
  pub href : String
  pub size_mb : ℤ

-- `types.DiskSettings`; `disk` may be nil
pub record DiskSettings : Type 0 where
  pub disk : Option Reference
  pub bus_number : ℤ
  pub unit_number : ℤ

-- `govcd.VM`, by its `VM.Name`, `VM.HREF` and `VM.VmSpecSection.DiskSection.DiskSettings`
pub record Vm : Type 0 where
  pub name : String
  pub href : String
  pub disk_settings : List (Option DiskSettings)

-- `types.DiskCreateParams`
pub record DiskCreateParams : Type 0 where
  pub name : String
  pub size_mb : ℤ
  pub storage_profile : Reference
  pub bus_type : String
  pub bus_sub_type : String

-- `types.DiskAttachOrDetachParams`
pub record AttachParams : Type 0 where
  pub disk : Reference
  pub bus_number : ℤ
  pub unit_number : ℤ

pub record Cloud (W : Type 0) : Type 0 where
  pub mime_disk : String
  pub mime_vapp : String
  -- the answer's HTTP status
  pub get_auth_response : Credentials → W → Result ℕ × W
  pub authenticate : Credentials → W → Result (Unit {0}) × W
  pub get_org : String → W → Result Handle × W
  pub get_vdc_by_name : Handle → String → Bool → W → Result Handle × W
  pub refresh : Handle → W → Result (Unit {0}) × W
  -- `vdc.Vdc.ResourceEntities`, as the last refresh left it
  pub resource_entities : Handle → W → List (List ResourceEntity)
  pub get_disk_by_href : Handle → String → W → Result Disk × W
  pub get_disks_by_name : Handle → String → Bool → W → Result (List Disk) × W
  pub find_storage_profile_reference : Handle → String → W → Result Reference × W
  -- the task comes back beside the error
  pub create_disk : Handle → DiskCreateParams → W → (Handle × Option Error) × W
  pub wait_task_completion : Handle → W → Result (Unit {0}) × W
  pub attached_vm : Disk → W → Result (Option Reference) × W
  pub delete_disk : Disk → W → Result Handle × W
  -- the new name and size
  pub update_disk : Disk → String → ℤ → W → Result Handle × W
  pub get_vapp_by_name : Handle → String → Bool → W → Result Handle × W
  pub get_vm_by_name : Handle → String → Bool → W → Result Vm × W
  pub attach_disk : Vm → AttachParams → W → Result Handle × W
  pub detach_disk : Vm → AttachParams → W → Result Handle × W
