-- ===== src/Vcd/Steps/Calls.antt =====
-- What a step of a method of pkg/vcd-client/client.go does to the mutex and to the recorded events, and
-- the lookups, the authentication and the detach in steps.
use vcd_csi.Prelude.{
  String, List, [], ◌∷◌, ◌++◌, ◌≡◌, refl, true, false, Option, none, some, ◌==◌, eqb,
}
use vcd_csi.Go.Error.{is_entity_not_found}
use vcd_csi.Go.Exec.{Result, ok, err, Exec, gets, ◌>>=◌}
use vcd_csi.Config.{ControllerConfig}
use vcd_csi.Cloud.{Cloud, Handle, ResourceEntity, Reference, Disk, DiskSettings, Vm}
use vcd_csi.Vcd.State.{VcdClient, call, set_client, add_clients, build_clients, refresh_auth}
use vcd_csi.Vcd.Find.{
  entities, find_vm, get_vm_by_name, exactly_one, get_disk_by_name, disks_exists,
}
use vcd_csi.Vcd.Detach.{release, detach_setting, detach_from_vm, detach_disk}
use vcd_csi.Vcd.Trace.{
  Event, listed, asked, detached, waited, Traced, silent, noted, found, noted_ok, traced,
}
use vcd_csi.Vcd.Steps.{
  Cut, Cut-step, Cut-pure, Cut-raise, Cut-panic, Cut-if, Cut-bind, Cut-option, Cut-attempt_bind,
}

-- The mutex stays taken, and the events stay recorded.
pub record Onward {W : Type 0} (s s' : VcdClient (Traced W)) : Type 0 where
  pub stays : s.locked ≡ true → s'.locked ≡ true
  pub more : (new : List Event) × (s'.cloud.events ≡ new ++ s.cloud.events)

pub Onward-refl : {W : Type 0} (s : VcdClient (Traced W)) → Onward s s
Onward-refl s = record { stays = λ h. h; more = ([], refl) }

abbrev pub InSteps : {W A : Type 0} → Exec (VcdClient (Traced W)) A → Type 1
InSteps = Cut Onward

found-more :
    {A : Type 0} (event : A → Event) (r : Result A) (events : List Event)
    → (new : List Event) × (found event r events ≡ new ++ events)
found-more event (ok a) events = (event a ∷ [], refl)
found-more event (err e) events = ([], refl)

module _ {W A : Type 0} where
  pub silent-Cut : (f : W → Result A × W) → InSteps (call (silent f))
  unfolding call
  silent-Cut f = Cut-step _ (λ s. record { stays = λ h. h; more = ([], refl) })

  pub noted-Cut : (event : Result A → Event) (f : W → Result A × W) → InSteps (call (noted event f))
  unfolding call
  noted-Cut event f = Cut-step _ (λ s. record { stays = λ h. h; more = (_ ∷ [], refl) })

  noted_ok-Cut : (event : A → Event) (f : W → Result A × W) → InSteps (call (noted_ok event f))
  unfolding call
  noted_ok-Cut event f =
      Cut-step _ (λ s. record { stays = λ h. h; more = found-more event _ s.cloud.events })

  pub gets-Cut : (f : VcdClient (Traced W) → A) → InSteps (gets f)
  unfolding ◌>>=◌
  gets-Cut f = Cut-step _ Onward-refl

module _ {W : Type 0} (cloud : Cloud W) (c : ControllerConfig) where
  set_client-Cut : (name : String) (vdc : Handle) → InSteps (set_client (traced cloud) c name vdc)
  unfolding set_client ◌>>=◌
  set_client-Cut name vdc = Cut-step _ (λ s. record { stays = λ h. h; more = ([], refl) })

  add_clients-Cut :
      (org : Handle) (vdcs : List String) → InSteps (add_clients (traced cloud) c org vdcs)
  unfolding add_clients
  add_clients-Cut org [] = Cut-pure tt
  add_clients-Cut org (vdc_name ∷ rest) =
      Cut-bind _ _ (silent-Cut _)
        λ vdc. Cut-bind _ _ (set_client-Cut vdc_name vdc) λ _. add_clients-Cut org rest

  build_clients-Cut : InSteps (build_clients (traced cloud) c)
  unfolding build_clients
  build_clients-Cut =
      Cut-bind _ _ (silent-Cut _) λ _. Cut-bind _ _ (silent-Cut _) λ org. add_clients-Cut org c.vdcs

  pub refresh_auth-Cut : InSteps (refresh_auth (traced cloud) c)
  unfolding refresh_auth
  refresh_auth-Cut =
      Cut-bind _ _ (silent-Cut _)
        λ status_code. Cut-if (eqb status_code 401) _ _ (λ _. build_clients-Cut) (λ _. Cut-pure tt)

module _ {W : Type 0} (cloud : Cloud W) where
  pub entities-Cut : (client : Handle) → InSteps (entities (traced cloud) client)
  unfolding entities
  entities-Cut client = gets-Cut _

  find_vm-Cut :
      (client : Handle) (vm : String) (objs : List ResourceEntity)
      → InSteps (find_vm (traced cloud) client vm objs)
  unfolding find_vm
  find_vm-Cut client vm [] = Cut-raise _
  find_vm-Cut client vm (obj ∷ objs) =
      Cut-if (obj.mime == cloud.mime_vapp) _ _
        (λ _. Cut-bind _ _ (silent-Cut _) λ vapp.
          Cut-attempt_bind _ _ _ (noted_ok-Cut _ _) (λ vapp_vm. Cut-pure vapp_vm)
            (λ e.
              Cut-if (is_entity_not_found e) _ _ (λ _. find_vm-Cut client vm objs)
                (λ _. Cut-raise e)))
        (λ _. find_vm-Cut client vm objs)

  pub get_vm_by_name-Cut :
      (client : Handle) (vm : String) → InSteps (get_vm_by_name (traced cloud) client vm)
  unfolding get_vm_by_name
  get_vm_by_name-Cut client vm =
      Cut-bind _ _ (entities-Cut client) λ objs. find_vm-Cut client vm objs

  exactly_one-Cut : (disks : List Disk) → InSteps (exactly_one (traced cloud) disks)
  unfolding exactly_one
  exactly_one-Cut [] = Cut-raise _
  exactly_one-Cut (disk ∷ []) = Cut-pure disk
  exactly_one-Cut (disk ∷ d ∷ disks) = Cut-raise _

  pub get_disk_by_name-Cut :
      (client : Handle) (name : String) → InSteps (get_disk_by_name (traced cloud) client name)
  unfolding get_disk_by_name
  get_disk_by_name-Cut client name =
      Cut-bind _ _ (noted-Cut (listed client name) _) λ disks. exactly_one-Cut disks

  pub disks_exists-Cut :
      (client : Handle) (name : String) → InSteps (disks_exists (traced cloud) client name)
  unfolding disks_exists
  disks_exists-Cut client name =
      Cut-attempt_bind _ _ _ (noted-Cut (listed client name) _) (λ d. Cut-pure true)
        (λ e. Cut-if (is_entity_not_found e) _ _ (λ _. Cut-pure false) (λ _. Cut-raise e))

  detach_setting-Cut :
      (disk : Disk) (vm : Vm) (settings : List (Option DiskSettings))
      → InSteps (detach_setting (traced cloud) disk vm settings)
  unfolding detach_setting
  detach_setting-Cut disk vm [] = Cut-pure tt
  detach_setting-Cut disk vm (none ∷ settings) = Cut-panic
  detach_setting-Cut disk vm (some setting ∷ settings) =
      Cut-option setting.disk _ _ (detach_setting-Cut disk vm settings) λ d.
        Cut-if (d.href == disk.href) _ _
          (λ _.
            Cut-bind _ _ (noted-Cut (detached vm (release d setting)) _)
              λ task. noted-Cut (waited task) _)
          (λ _. detach_setting-Cut disk vm settings)

  detach_from_vm-Cut :
      (client : Handle) (disk : Disk) (vm : Option Reference)
      → InSteps (detach_from_vm (traced cloud) client disk vm)
  unfolding detach_from_vm
  detach_from_vm-Cut client disk none = Cut-pure tt
  detach_from_vm-Cut client disk (some vm) =
      Cut-bind _ _ (get_vm_by_name-Cut client vm.name)
        λ vapp_vm. detach_setting-Cut disk vapp_vm vapp_vm.disk_settings

  pub detach_disk-Cut :
      (client : Handle) (name : String) → InSteps (detach_disk (traced cloud) client name)
  unfolding detach_disk
  detach_disk-Cut client name =
      Cut-bind _ _ (get_disk_by_name-Cut client name)
        λ disk. Cut-bind _ _ (noted-Cut (asked disk) _) λ vm. detach_from_vm-Cut client disk vm
