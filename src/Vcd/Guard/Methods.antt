-- ===== src/Vcd/Guard/Methods.antt =====
-- The public methods of pkg/vcd-client/client.go but `CreateDisk`, against the guards.
use vcd_csi.Prelude.{String, List, [], ◌∷◌, refl, sym, Option, none, some, ◌==◌}
use vcd_csi.Prelude.Dict.{Dict}
use mathlib.Core.Path.{subst}
use vcd_csi.Go.Error.{is_entity_not_found, is_vm_not_found}
use vcd_csi.Go.Exec.{Result, ok, err}
use vcd_csi.Go.Exec.Runs.{
  Runs, Runs-pure, Runs-bind, Runs-if, Runs-raise, Runs-gets, Runs-attempt_bind,
}
use vcd_csi.Go.Exec.Ensures.{
  Ensures, Runs-Ensures, Ensures-Runs, Ensures-bind, Ensures-before, Ensures-after, Ensures-attempt,
  Ensures-pure, Ensures-raise, Answer,
}
use vcd_csi.StorageSize.{StorageSize, mb}
use vcd_csi.Config.{ControllerConfig}
use vcd_csi.Cloud.{Cloud, Handle, ResourceEntity, Reference, Disk}
use vcd_csi.Vcd.Units.Laws.{IsOrder}
use vcd_csi.Vcd.Find.{get_vm_by_name}
use vcd_csi.Vcd.Service.{
  VolumeWithCap, Visit, clients_in, list_entities, list_clients, list_volumes, detach_first,
  delete_found, delete_from, delete_disk, detach_from, detach_volume, attach_from, attach_disk,
  resize_detached, resize_in, resize_disk,
}
use vcd_csi.Vcd.Trace.{Event, deleted, updated, traced}
use vcd_csi.Vcd.Guard.{On, IsGuarded, Single, Told, Held, Free, never, freed}
use vcd_csi.Vcd.Guard.Calls.{
  silent-Runs, wait-Runs, noted-Ensures, get_vm_by_name-Ensures, get_disk_by_name-Ensures,
  get_disk_by_name-Runs,
}
use vcd_csi.Vcd.Guard.Detach.{
  Loosened, Single-IsGuarded, Told-IsGuarded, Unattached-map, attached_vm-Ensures,
  detach_disk-Ensures, detach_disk-Runs,
}
use vcd_csi.Vcd.Guard.Attach.{attach_found-Runs}
use vcd_csi.Vcd.Guard.Idle.{IsIdle, method-Runs, entities-Runs}

module _ {W : Type 0} (cloud : Cloud W) (c : ControllerConfig) where
  list_entities-Runs :
      (vdc_name : String) (vcd : Handle) (objs : List ResourceEntity) (resp : List VolumeWithCap)
      → Runs (On IsGuarded) (list_entities (traced cloud) c vdc_name vcd objs resp)
  unfolding list_entities
  list_entities-Runs vdc_name vcd [] resp = Runs-pure resp
  list_entities-Runs vdc_name vcd (obj ∷ objs) resp =
      Runs-if (obj.mime == cloud.mime_disk) _ _
        (λ _. Runs-bind _ _ (silent-Runs IsGuarded _) λ d. list_entities-Runs vdc_name vcd objs _)
        (λ _. list_entities-Runs vdc_name vcd objs resp)

  list_clients-Runs :
      (clients : Dict Handle) (resp : List VolumeWithCap)
      → Runs (On IsGuarded) (list_clients (traced cloud) c clients resp)
  unfolding list_clients
  list_clients-Runs [] resp = Runs-pure resp
  list_clients-Runs ((vdc_name, vcd) ∷ clients) resp = Runs-bind _ _ (silent-Runs IsGuarded _) λ _.
      Runs-bind _ _ (entities-Runs cloud c vcd) λ objs.
        Runs-bind _ _ (list_entities-Runs vdc_name vcd objs resp)
          λ resp'. list_clients-Runs clients resp'

  pub list_volumes-Runs : (visit : Visit) → Runs IsIdle (list_volumes (traced cloud) c visit)
  unfolding list_volumes clients_in
  list_volumes-Runs visit =
      method-Runs cloud c _ (Runs-bind _ _ (Runs-gets _) λ clients. list_clients-Runs clients [])

  -- What was known when the disk was found.
  abbrev Before : List Event → Type 0
  Before t = Unit × IsGuarded t

  abbrev Asked : Handle → String → Disk → Option Reference → List Event → Type 0
  Asked client name disk = Told (Single Before client name disk) disk

  Found-IsGuarded :
      (client : Handle) (name : String) (disk : Disk) (t : List Event)
      → Single Before client name disk t
      → IsGuarded t
  Found-IsGuarded = Single-IsGuarded (λ t h. h.1)

  -- What a deletion needs is what the cloud's answer, or a detach, leaves.
  detach_first-Ensures :
      (client : Handle) (name : String) (disk : Disk) (o : Option Reference)
      → Ensures
          (On (Asked client name disk o))
          (detach_first (traced cloud) c client name o)
          (λ _. On (λ t. Free disk t × IsGuarded t))
          (On IsGuarded)
  unfolding detach_first
  detach_first-Ensures client name disk none = Ensures-pure tt (λ s p. (
    p.0,
    (
      asked_free s.cloud.events p.1,
      Told-IsGuarded (Found-IsGuarded client name disk) disk none s.cloud.events p.1,
    ),
  ))
    where
      asked_free : (t : List Event) → Asked client name disk none t → Free disk t
      asked_free t (rest, e, (rest', e', h)) = never client name (rest, e, (rest', e', tt))
  detach_first-Ensures client name disk (some r) =
      Ensures-after _ _ _ _ (λ a s p. (p.0, (loosened s.cloud.events p.1, p.1.1.1))) (λ s p. p)
        (Ensures-before (λ s p. (p.0, held s.cloud.events p.1))
          (detach_disk-Ensures cloud (λ t. Held client name disk t × IsGuarded t) (λ t h. h.1)
            client name))
    where
      held :
          (t : List Event)
          → Asked client name disk (some r) t
          → Held client name disk t × IsGuarded t
      held t (rest, e, (rest', e', h)) = (
        (r, (rest, e, (rest', e', tt))),
        Told-IsGuarded (Found-IsGuarded client name disk) disk (some r) t (rest, e, (rest', e', h)),
      )

      loosened :
          (t : List Event)
          → Loosened (λ u. Held client name disk u × IsGuarded u) client name t
          → Free disk t
      loosened t (d, (u, g)) = freed client name d (Unattached-map (λ v p. (p.0, p.1, p.2.0)) d t u)

  delete_found-Ensures :
      (client : Handle) (name : String) (disk : Disk)
      → Ensures
          (On (Single Before client name disk))
          (delete_found (traced cloud) c client name disk)
          (λ _. On IsGuarded)
          (On IsGuarded)
  unfolding delete_found
  delete_found-Ensures client name disk =
      Ensures-bind _ (attached_vm-Ensures cloud _ (Found-IsGuarded client name disk) disk) λ o.
        Ensures-bind _ (detach_first-Ensures client name disk o) λ _.
          Ensures-bind (λ _. On IsGuarded)
            (noted-Ensures _ _ (λ _. deleted disk) _ (λ t a h. h) (λ t e h. h))
            λ task. Ensures-Runs (wait-Runs cloud task)

  delete_from-Runs :
      (name : String) (clients : Dict Handle)
      → Runs (On IsGuarded) (delete_from (traced cloud) c name clients)
  unfolding delete_from
  delete_from-Runs name [] = Runs-pure tt
  delete_from-Runs name ((vdc_name, client) ∷ clients) =
      Runs-bind _ _ (silent-Runs IsGuarded _) λ _. Runs-Ensures (
        Ensures-bind _
          (Ensures-attempt _ _ (
            Ensures-before (λ s p. (p.0, (tt, p.1)))
              (get_disk_by_name-Ensures cloud Before client name (λ t h. h.1))))
          λ found. deletion found (delete_from-Runs name clients))
    where
      deletion :
          (found : Result Disk)
          → Runs (On IsGuarded) (delete_from (traced cloud) c name clients)
          → Ensures
              (Answer (λ d. On {W = W} (Single Before client name d)) (On IsGuarded) found)
              (elim found [
                | ok disk ↦ delete_found (traced cloud) c client name disk
                | err e ↦ delete_from (traced cloud) c name clients
              ])
              (λ _. On IsGuarded)
              (On IsGuarded)
      deletion (ok disk) next = delete_found-Ensures client name disk
      deletion (err e) next = Ensures-Runs next

  pub delete_disk-Runs :
      (visit : Visit) (name : String) → Runs IsIdle (delete_disk (traced cloud) c visit name)
  unfolding delete_disk clients_in
  delete_disk-Runs visit name =
      method-Runs cloud c _ (Runs-bind _ _ (Runs-gets _) λ clients. delete_from-Runs name clients)

  detach_from-Runs :
      (name : String) (clients : Dict Handle)
      → Runs (On IsGuarded) (detach_from (traced cloud) c name clients)
  unfolding detach_from
  detach_from-Runs name [] = Runs-pure tt
  detach_from-Runs name ((vdc_name, client) ∷ clients) =
      Runs-bind _ _ (silent-Runs IsGuarded _) λ _.
        Runs-attempt_bind _ _ _ (detach_disk-Runs cloud client name) (λ _. Runs-pure tt)
          (λ e.
            Runs-if (is_entity_not_found e) _ _ (λ _. detach_from-Runs name clients)
              (λ _. Runs-raise e))

  pub detach_volume-Runs :
      (visit : Visit) (vm name : String)
      → Runs IsIdle (detach_volume (traced cloud) c visit vm name)
  unfolding detach_volume clients_in
  detach_volume-Runs visit vm name =
      method-Runs cloud c _ (Runs-bind _ _ (Runs-gets _) λ clients. detach_from-Runs name clients)

  get_vm_by_name-Runs :
      (client : Handle) (vm : String)
      → Runs (On IsGuarded) (get_vm_by_name (traced cloud) client vm)
  get_vm_by_name-Runs client vm =
      Runs-Ensures
        (get_vm_by_name-Ensures cloud IsGuarded (λ _. IsGuarded) (λ t v h. (tt, h)) client vm)

  attach_from-Runs :
      (visit : Visit) (vm name : String) (clients : Dict Handle)
      → IsOrder visit.units
      → Runs (On IsGuarded) (attach_from (traced cloud) c visit vm name clients)
  unfolding attach_from
  attach_from-Runs visit vm name [] order = Runs-raise _
  attach_from-Runs visit vm name ((vdc_name, client) ∷ clients) order =
      Runs-bind _ _ (silent-Runs IsGuarded _) λ _.
        Runs-attempt_bind _ _ _ (get_vm_by_name-Runs client vm)
          (λ vapp_vm. attach_found-Runs cloud c visit.units order client vapp_vm name)
          (λ e.
            Runs-if (is_vm_not_found e) _ _ (λ _. attach_from-Runs visit vm name clients order)
              (λ _. Runs-raise e))

  pub attach_disk-Runs :
      (visit : Visit) (vm name : String)
      → IsOrder visit.units
      → Runs IsIdle (attach_disk (traced cloud) c visit vm name)
  unfolding attach_disk clients_in
  attach_disk-Runs visit vm name order =
      method-Runs cloud c _
        (Runs-bind _ _ (Runs-gets _) λ clients. attach_from-Runs visit vm name clients order)

  resize_detached-Ensures :
      (disk : Disk) (size : StorageSize) (o : Option Reference)
      → Ensures
          (On (Told IsGuarded disk o))
          (resize_detached (traced cloud) c disk size o)
          (λ _. On IsGuarded)
          (On IsGuarded)
  unfolding resize_detached
  resize_detached-Ensures disk size (some r) =
      Ensures-raise _ (λ s p. (p.0, Told-IsGuarded (λ t h. h) disk (some r) s.cloud.events p.1))
  resize_detached-Ensures disk size none =
      Ensures-bind (λ _. On IsGuarded)
        (noted-Ensures _ _ (λ _. updated disk disk.name (mb size)) _ (λ t a h. guarded t h)
          (λ t e h. guarded t h))
        λ task. Ensures-Runs (wait-Runs cloud task)
    where
      guarded :
          (t : List Event)
          → Told IsGuarded disk none t
          → IsGuarded (updated disk disk.name (mb size) ∷ t)
      guarded t (rest, e, h) =
          subst (λ u. IsGuarded (updated disk disk.name (mb size) ∷ u)) (sym e)
            ((refl, refl), (tt, h))

  resize_in-Runs :
      (client : Option Handle) (name : String) (size : StorageSize)
      → Runs (On IsGuarded) (resize_in (traced cloud) c client name size)
  unfolding resize_in
  resize_in-Runs none name size = Runs-raise _
  resize_in-Runs (some client) name size =
      Runs-bind _ _ (get_disk_by_name-Runs cloud client name) λ disk. Runs-Ensures (
        Ensures-bind _ (attached_vm-Ensures cloud IsGuarded (λ t h. h) disk)
          (resize_detached-Ensures disk size))

  pub resize_disk-Runs :
      (vdc_name name : String) (size : StorageSize)
      → Runs IsIdle (resize_disk (traced cloud) c vdc_name name size)
  unfolding resize_disk
  resize_disk-Runs vdc_name name size =
      method-Runs cloud c _ (Runs-bind _ _ (Runs-gets _) λ client. resize_in-Runs client name size)
