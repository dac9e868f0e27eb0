-- ===== src/Vcd/Trace.antt =====
-- A record of what the client asks of a cloud, newest first: a cloud is wrapped so that its state
-- carries the events. The wrapped cloud answers as the cloud does.
use vcd_csi.Prelude.{String, List, ◌∷◌, Option}
use vcd_csi.Go.Int.{ℤ}
use vcd_csi.Go.Exec.{Result, ok, err}
use vcd_csi.Cloud.{Cloud, Handle, Reference, Disk, DiskCreateParams, Vm, AttachParams}

pub data Event : Type 0 where
  listed : Handle → String → Result (List Disk) → Event
  asked : Disk → Result (Option Reference) → Event
  fetched : Vm → Event
  created : Handle → DiskCreateParams → Event
  deleted : Disk → Event
  updated : Disk → String → ℤ → Event
  attached : Vm → AttachParams → Event
  detached : Vm → AttachParams → Result Handle → Event
  waited : Handle → Result (Unit {0}) → Event

pub record Traced (W : Type 0) : Type 0 where
  pub events : List Event
  pub world : W

module _ {W A : Type 0} where
  -- A call that leaves no event.
  abbrev pub silent : (W → A × W) → Traced W → A × Traced W
  silent f t = let (a, w) = f t.world in (a, record t { world = w })

  -- A call that leaves an event with its answer.
  abbrev pub noted : (A → Event) → (W → A × W) → Traced W → A × Traced W
  noted event f t = let (a, w) = f t.world in (a, record { events = event a ∷ t.events; world = w })

-- A lookup leaves an event if it finds something.
abbrev pub found : {A : Type 0} → (A → Event) → Result A → List Event → List Event
found event (ok a) events = event a ∷ events
found event (err e) events = events

module _ {W A : Type 0} where
  abbrev pub noted_ok : (A → Event) → (W → Result A × W) → Traced W → Result A × Traced W
  noted_ok event f t =
      let (r, w) = f t.world in (r, record { events = found event r t.events; world = w })

abbrev pub traced : {W : Type 0} → Cloud W → Cloud (Traced W)
traced c = record {
  mime_disk = c.mime_disk;
  mime_vapp = c.mime_vapp;
  get_auth_response = λ cr. silent (c.get_auth_response cr);
  authenticate = λ cr. silent (c.authenticate cr);
  get_org = λ o. silent (c.get_org o);
  get_vdc_by_name = λ o n r. silent (c.get_vdc_by_name o n r);
  refresh = λ v. silent (c.refresh v);
  resource_entities = λ v t. c.resource_entities v t.world;
  get_disk_by_href = λ v h. silent (c.get_disk_by_href v h);
  get_disks_by_name = λ v n r. noted (listed v n) (c.get_disks_by_name v n r);
  find_storage_profile_reference = λ v p. silent (c.find_storage_profile_reference v p);
  create_disk = λ v p. noted (λ _. created v p) (c.create_disk v p);
  wait_task_completion = λ t. noted (waited t) (c.wait_task_completion t);
  attached_vm = λ d. noted (asked d) (c.attached_vm d);
  delete_disk = λ d. noted (λ _. deleted d) (c.delete_disk d);
  update_disk = λ d n s. noted (λ _. updated d n s) (c.update_disk d n s);
  get_vapp_by_name = λ v n r. silent (c.get_vapp_by_name v n r);
  get_vm_by_name = λ v n r. noted_ok fetched (c.get_vm_by_name v n r);
  attach_disk = λ v p. noted (λ _. attached v p) (c.attach_disk v p);
  detach_disk = λ v p. noted (detached v p) (c.detach_disk v p);
}
