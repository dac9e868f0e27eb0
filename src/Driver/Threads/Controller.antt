-- ===== src/Driver/Threads/Controller.antt =====
-- The methods of internal/driver/disk.go as programs, from the methods of the client in steps.
use vcd_csi.Prelude.{refl, String, Bool, Option}
use vcd_csi.Prelude.Dict.{Dict, lookup}
use vcd_csi.Go.Error.{Error, is_disk_already_exists, is_disk_attached_to_vm}
use vcd_csi.Go.Exec.{ok, returned, pure, zoom}
use vcd_csi.Driver.Threads.Impl.{
  Impl, Impl-atom, Impl-call, Impl-pure, Impl-raise, Impl-deref, Impl-bind, Impl-then, Impl-if,
  Impl-result, Impl-option, Impl-attempt_bind,
}
use vcd_csi.Go.Int.{leb_ℤ}
use vcd_csi.StorageSize.{StorageSize, bytes}
use vcd_csi.Locker.{is_locked, put, pop}
use vcd_csi.Vcd.State.{VcdClient}
use vcd_csi.Vcd.Steps.{Method}
use vcd_csi.Driver.Threads.{on_rest}
use vcd_csi.Csi.{
  CapacityRange, CreateVolumeRequest, ControllerPublishVolumeRequest, ControllerExpandVolumeRequest,
}
use vcd_csi.Driver.State.{VcdService, Serves, reject}
use vcd_csi.Driver.Capacity.{extract_storage}
use vcd_csi.Driver.Capabilities.{StringSets}
use vcd_csi.Driver.Create.{
  parameter, requested_size, created_volume, create_volume, delete_volume, list_volumes,
}
use vcd_csi.Driver.Publish.{
  lock_is_locked, lock_put, lock_pop, controller_publish_volume, controller_unpublish_volume,
}
use vcd_csi.Driver.Expand.{new_size, resize, controller_expand_volume}

-- Each method of the client in steps.
pub record InSteps {W : Type 0} (R : VcdClient W → VcdClient W → Type 0)
    (vcl : VcdService (VcdClient W)) : Type 1 where
  pub creates :
      (vdc name profile : String) (size : StorageSize)
      → Method R (vcl.create_disk vdc name profile size)
  pub lists : Method R vcl.list_volumes
  pub deletes : (name : String) → Method R (vcl.delete_disk name)
  pub detaches : (vm name : String) → Method R (vcl.detach_disk vm name)
  pub attaches : (vm name : String) → Method R (vcl.attach_disk vm name)
  pub resizes : (vdc name : String) (size : StorageSize) → Method R (vcl.resize_disk vdc name size)

module _ {W M : Type 0} {R : VcdClient W → VcdClient W → Type 0} {P : VcdClient W → Type 0} where
  pub reject-Impl : (b : Bool) (e : Error) → Impl {M = M} R P (reject b e)
  unfolding reject
  reject-Impl b e = Impl-if b _ _ (λ h. Impl-raise e) (λ h. Impl-pure tt)

  parameter-Impl :
      (key : String) (parameters : Dict String) → Impl {M = M} R P (parameter key parameters)
  unfolding parameter
  parameter-Impl key parameters =
      Impl-option (lookup key parameters) _ _ (Impl-raise _) (λ value. Impl-pure value)

  requested_size-Impl : (range : Option CapacityRange) → Impl {M = M} R P (requested_size range)
  unfolding requested_size
  requested_size-Impl range =
      Impl-result (extract_storage range) _ _ (λ size. Impl-pure size) (λ e. Impl-raise _)

  lock_is_locked-Impl : (key : String) → Impl {M = M} R P (lock_is_locked key)
  unfolding lock_is_locked on_rest zoom
  lock_is_locked-Impl key =
      Impl-atom _
        (λ r.
          let (answer, lock) = is_locked key r.lock in
          (returned (ok answer), record r { lock = lock }))
        (λ s. refl)

  lock_put-Impl : (key : String) → Impl {M = M} R P (lock_put key)
  unfolding lock_put on_rest zoom
  lock_put-Impl key =
      Impl-atom _ (λ r. (returned (ok tt), record r { lock = put key r.lock })) (λ s. refl)

  lock_pop-Impl : (key : String) → Impl {M = M} R P (lock_pop key)
  unfolding lock_pop on_rest zoom
  lock_pop-Impl key =
      Impl-atom _
        (λ r.
          let (answer, lock) = pop key r.lock in (returned (ok answer), record r { lock = lock }))
        (λ s. refl)

module _ {W M : Type 0} {R : VcdClient W → VcdClient W → Type 0} {P : VcdClient W → Type 0}
    (vcl : VcdService (VcdClient W)) (h : InSteps R vcl) (k : Serves P vcl) where
  pub create_volume-Impl :
      {Set : Type 0} (sets : StringSets Set) (req : CreateVolumeRequest)
      → Impl {M = M} R P (create_volume vcl sets req)
  unfolding create_volume
  create_volume-Impl sets req = Impl-then _ _ (reject-Impl _ _) (
      Impl-then _ _ (reject-Impl _ _) (
        Impl-then _ _ (reject-Impl _ _) (
          Impl-bind _ _ (parameter-Impl _ _) λ vdc. Impl-bind _ _ (parameter-Impl _ _) λ storage.
            Impl-bind _ _ (requested_size-Impl _) λ size.
              Impl-attempt_bind _ _ _
                (Impl-call _ (h.creates vdc req.name storage size)
                  (k.creates vdc req.name storage size))
                (λ a. Impl-pure _)
                (λ e.
                  Impl-if (is_disk_already_exists e) (pure (created_volume req.name vdc size)) _
                    (λ x. Impl-pure _) (λ x. Impl-raise e)))))

  pub delete_volume-Impl : (volume_id : String) → Impl {M = M} R P (delete_volume vcl volume_id)
  unfolding delete_volume
  delete_volume-Impl volume_id = Impl-then _ _ (reject-Impl _ _) (
      Impl-attempt_bind _ _ _ (Impl-call _ (h.deletes volume_id) (k.deletes volume_id))
        (λ a. Impl-pure tt) (λ e. Impl-raise _))

  pub list_volumes-Impl : Impl {M = M} R P (list_volumes vcl)
  unfolding list_volumes
  list_volumes-Impl = Impl-bind _ _ (Impl-call _ h.lists k.lists) (λ volumes. Impl-pure _)

  pub controller_publish_volume-Impl :
      (req : ControllerPublishVolumeRequest) → Impl {M = M} R P (controller_publish_volume vcl req)
  unfolding controller_publish_volume
  controller_publish_volume-Impl req = Impl-then _ _ (reject-Impl _ _) (
      Impl-then _ _ (reject-Impl _ _) (
        Impl-then _ _ (reject-Impl _ _) (
          Impl-then _ _ (reject-Impl _ _) (
            Impl-bind _ _ (lock_is_locked-Impl _) λ locked. Impl-then _ _ (reject-Impl _ _) (
              Impl-attempt_bind _ _ _ (Impl-call _ (h.attaches _ _) (k.attaches _ _))
                (λ a. Impl-pure _) (λ e. Impl-raise _))))))

  pub controller_unpublish_volume-Impl :
      (volume_id node_id : String)
      → Impl {M = M} R P (controller_unpublish_volume vcl volume_id node_id)
  unfolding controller_unpublish_volume
  controller_unpublish_volume-Impl volume_id node_id = Impl-then _ _ (reject-Impl _ _) (
      Impl-attempt_bind _ _ _ (Impl-call _ (h.detaches _ _) (k.detaches _ _)) (λ a. Impl-pure tt)
        (λ e. Impl-raise _))

  resize-Impl :
      (req : ControllerExpandVolumeRequest) (vdc_name : String) (size : StorageSize)
      → Impl {M = M} R P (resize vcl req vdc_name size)
  unfolding resize
  resize-Impl req vdc_name size =
      Impl-attempt_bind _ _ _ (Impl-call _ (h.resizes _ _ _) (k.resizes _ _ _))
        (λ a. Impl-bind _ _ (lock_pop-Impl _) (λ b. Impl-pure _))
        (λ e.
          Impl-if (is_disk_attached_to_vm e) _ _
            (λ x. Impl-then _ _ (lock_put-Impl _) (Impl-raise _)) (λ x. Impl-raise _))

  new_size-Impl : (range : Option CapacityRange) → Impl {M = M} R P (new_size vcl range)
  unfolding new_size
  new_size-Impl range =
      Impl-result (extract_storage range) _ _ (λ size. Impl-pure size) (λ e. Impl-raise _)

  pub controller_expand_volume-Impl :
      (req : ControllerExpandVolumeRequest) → Impl {M = M} R P (controller_expand_volume vcl req)
  unfolding controller_expand_volume
  controller_expand_volume-Impl req = Impl-bind _ _ (Impl-deref _) λ range.
      Impl-then _ _ (reject-Impl _ _) (
        Impl-bind _ _ (Impl-call _ h.lists k.lists) λ volumes.
          Impl-bind _ _ (new_size-Impl _) λ size. Impl-bind _ _ (Impl-deref _) λ current.
            Impl-if (leb_ℤ (bytes size) (bytes current.cap)) (pure _) (resize vcl req _ size)
              (λ x. Impl-pure _) (λ x. resize-Impl req _ size))
