-- ===== src/Driver/State.antt =====
-- The driver's interfaces to the cloud and to the host, and its state (`CsiDriver` of
-- internal/driver/drv.go, `VcdService` of pkg/vcd-client/client.go, `Mounter` of
-- internal/mount/mounter.go).
use vcd_csi.Prelude.{String, List, Bool, if◌then◌else◌}
use vcd_csi.Go.Int.{ℤ}
use vcd_csi.Go.Error.{Error, invalid_argument, new, status}
use vcd_csi.Go.Exec.{Exec, pure, raise, zoom}
use vcd_csi.Go.Exec.Runs.{Runs}
use vcd_csi.StorageSize.{StorageSize}
use vcd_csi.Config.{ControllerConfig}
use vcd_csi.Locker.{SimpleLock}
use vcd_csi.Vcd.Attach.{DiskAttachParams}
use vcd_csi.Vcd.Service.{VolumeWithCap}

-- `VcdService`
pub record VcdService (S : Type 0) : Type 0 where
  pub create_disk : String → String → String → StorageSize → Exec S (Unit {0})
  pub list_volumes : Exec S (List VolumeWithCap)
  pub delete_disk : String → Exec S (Unit {0})
  pub detach_disk : String → String → Exec S (Unit {0})
  pub attach_disk : String → String → Exec S DiskAttachParams
  pub resize_disk : String → String → StorageSize → Exec S (Unit {0})

-- `VolumeStatistics`
pub record VolumeStatistics : Type 0 where
  pub available_bytes : ℤ
  pub total_bytes : ℤ
  pub used_bytes : ℤ
  pub available_inodes : ℤ
  pub total_inodes : ℤ
  pub used_inodes : ℤ

-- `Mounter`
pub record Mounter (M : Type 0) : Type 0 where
  pub format : String → String → Exec M (Unit {0})
  pub mount : String → String → String → List String → Exec M (Unit {0})
  pub unmount : String → Exec M (Unit {0})
  pub is_formatted : String → Exec M Bool
  pub is_mounted : String → Exec M Bool
  pub get_statistics : String → Exec M VolumeStatistics
  pub is_block_device : String → Exec M Bool
  pub get_disk_unit : String → String → String → Exec M String

-- What every method of the service keeps, however it ends, while none blocks.
pub record Serves {S : Type 0} (P : S → Type 0) (vcl : VcdService S) : Type 0 where
  pub creates :
      (vdc name profile : String) (size : StorageSize)
      → Runs P (vcl.create_disk vdc name profile size)
  pub lists : Runs P vcl.list_volumes
  pub deletes : (name : String) → Runs P (vcl.delete_disk name)
  pub detaches : (vm name : String) → Runs P (vcl.detach_disk vm name)
  pub attaches : (vm name : String) → Runs P (vcl.attach_disk vm name)
  pub resizes : (vdc name : String) (size : StorageSize) → Runs P (vcl.resize_disk vdc name size)

-- The fields of `CsiDriver` that never change.
pub record CsiDriver : Type 0 where
  pub config : ControllerConfig
  pub name : String
  pub version : String
  pub node_id : String

-- `NewCsiDriver`. The version is not set.
unfoldable pub new_csi_driver : ControllerConfig → CsiDriver
new_csi_driver c = record {
  config = c;
  name = c.controller_name;
  version = "";
  node_id = c.node_name;
}

-- What the driver's methods change: the client, the lock and the host.
pub record State (S M : Type 0) : Type 0 where
  pub vcl : S
  pub lock : SimpleLock
  pub host : M

module _ {S M A : Type 0} where
  unfoldable pub on_vcl : Exec S A → Exec (State S M) A
  unfolding zoom
  on_vcl = zoom (λ s. s.vcl) (λ v s. record s { vcl = v })

  unfoldable pub on_host : Exec M A → Exec (State S M) A
  unfolding zoom
  on_host = zoom (λ s. s.host) (λ h s. record s { host = h })

-- `status.Error(codes.InvalidArgument, message)`
abbrev pub invalid : String → Error
invalid message = status invalid_argument (new message)

-- `if b { return nil, err }`
unfoldable pub reject {ℓ} : {S : Type ℓ} → Bool → Error → Exec S (Unit {ℓ})
reject b e = if b then raise e else pure tt
