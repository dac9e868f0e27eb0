-- ===== src/Tests/Client.antt =====
-- The client on the small cloud.
use vcd_csi.Prelude.{
  false, ℕ, zero, suc, ◌+◌, ap, ◌≤◌, ◌<◌, List, [], ◌∷◌, ◌≡◌, refl, Option, none, some, Any, first,
  later, arith,
}
use native.Mathlib.Decide.{dec_lt}
use vcd_csi.Vcd.Attach.{attachment, attach_to_vm}
use vcd_csi.Go.Int.{pos}
use vcd_csi.Go.Error.{external}
use vcd_csi.Go.Exec.{ok, err, returned}
use vcd_csi.StorageSize.{new_storage_size}
use vcd_csi.Cloud.{Cloud, ResourceEntity, Disk, DiskSettings, Vm}
use vcd_csi.Vcd.Units.{get_free_unit_num}
use vcd_csi.Vcd.Units.Laws.{Picked, get_free_unit_num-Picked}
use vcd_csi.Vcd.Units.Marks.{Uses}
use vcd_csi.Vcd.Service.{delete_from, list_entities}
use vcd_csi.Vcd.Service.Laws.{Names, list_entities-Names, delete_from-Fails}
use vcd_csi.Vcd.Session.{Request, create, delete, attach, resize}
use vcd_csi.Vcd.Trace.{traced, attached}
use vcd_csi.Vcd.Guard.Full.{requested, attach_to_vm_full}
use vcd_csi.Tests.Fixtures.{small_cloud, config, visit, visit-IsOrder, idle, plain, worker}

abbrev requests : List Request
requests =
    create "east" "logs" "fast" (new_storage_size (pos 5368709120))
    ∷ attach visit "worker" "logs"
    ∷ resize "east" "logs" (new_storage_size (pos 6442450944))
    ∷ delete visit "logs"
    ∷ []

get_free_unit_num-Picked_example :
    Picked worker (pos 1) (get_free_unit_num visit.units worker (pos 1))
get_free_unit_num-Picked_example = get_free_unit_num-Picked visit.units worker (pos 1) visit-IsOrder

-- The unit 8 is taken, so the answer is 9.
picked_unit : get_free_unit_num visit.units worker (pos 1) ≡ (pos 9, none)
unfolding get_free_unit_num
picked_unit = refl

-- A cloud that answers every lookup of an entity by a disk.
abbrev sized_cloud : Cloud (List Disk)
sized_cloud = record small_cloud {
  get_disk_by_href =
      λ v h w. (ok (record { mime = "disk"; name = "d"; href = h; size_mb = pos 10 }), w);
}

abbrev objects : List ResourceEntity
objects =
    record { mime = "disk"; name = "data"; href = "disk/1" }
    ∷ record { mime = "vapp"; name = "app"; href = "vapp/1" }
    ∷ record { mime = "disk"; name = "logs"; href = "disk/2" }
    ∷ []

list_entities-Names_example :
    Names sized_cloud config
      ("data" ∷ "logs" ∷ [])
      (list_entities sized_cloud config "east" 2 objects [] plain).0
list_entities-Names_example = list_entities-Names sized_cloud config "east" 2 objects [] plain

-- A cloud that no longer answers.
abbrev broken_cloud : Cloud (List Disk)
broken_cloud = record small_cloud {
  get_disks_by_name = λ v n r w. (err (external false "connection refused"), w);
}

delete_from-Fails_example :
    (delete_from broken_cloud config "data" plain.vdc_clients plain).0 ≡ returned (ok tt)
delete_from-Fails_example =
    delete_from-Fails broken_cloud config "data" plain.vdc_clients plain (λ h w. refl) (λ h w. tt)

-- A machine with a disk at each unit of the driver.
abbrev disks_from : ℕ → ℕ → List (Option DiskSettings)
disks_from i zero = []
disks_from i (suc rounds) =
    some (record { disk = none; bus_number = pos 1; unit_number = pos i })
    ∷ disks_from (i + 1) rounds

disks_from-Uses :
    (i rounds n : ℕ) → i ≤ n → n < i + rounds → Any (Uses (pos 1) (pos n)) (disks_from i rounds)
disks_from-Uses i zero n h k = absurd (omega arith)
disks_from-Uses i (suc rounds) n h k = elim (dec_lt i n) [
  | yes p ↦ later (disks_from-Uses (i + 1) rounds n (omega arith) (omega arith))
  | no p ↦ first (refl, ap pos (omega arith))
]

abbrev full : Vm
full = record { name = "full"; href = "vm/2"; disk_settings = disks_from 8 8 }

abbrev data_disk : Disk
data_disk = record { mime = "disk"; name = "data"; href = "disk/data"; size_mb = pos 5120 }

attach_to_vm_full_example :
    requested
      (attach_to_vm
        (traced small_cloud)
        config
        visit.units
        full
        "data"
        data_disk
        idle).1.cloud.events
    ≡ attached full (attachment data_disk (pos 1) (pos 0)) ∷ []
attach_to_vm_full_example =
    attach_to_vm_full small_cloud config visit.units full "data" data_disk idle visit-IsOrder
      (λ n h k. disks_from-Uses 8 8 n h (omega arith))
