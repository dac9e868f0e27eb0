-- ===== src/Driver/Runs.antt =====
-- A predicate that the handlers of internal/driver/disk.go keep, from what the calls of the client
-- keep. None of them blocks if no call does.
use vcd_csi.Prelude.{String, Bool, Option}
use vcd_csi.Prelude.Dict.{Dict, lookup}
use vcd_csi.Go.Error.{Error, is_disk_already_exists, is_disk_attached_to_vm}
use vcd_csi.Go.Exec.{pure}
use vcd_csi.Go.Exec.Runs.{
  Runs, Runs-pure, Runs-raise, Runs-deref, Runs-bind, Runs-then, Runs-if, Runs-result, Runs-option,
  Runs-attempt_bind,
}
use vcd_csi.Go.Int.{leb_ℤ}
use vcd_csi.StorageSize.{StorageSize, bytes}
use vcd_csi.Locker.{SimpleLock}
use vcd_csi.Csi.{
  CapacityRange, CreateVolumeRequest, ControllerPublishVolumeRequest, ControllerExpandVolumeRequest,
}
use vcd_csi.Driver.State.{VcdService, Serves, State, on_vcl, reject}
use vcd_csi.Driver.Capacity.{extract_storage}
use vcd_csi.Driver.Capabilities.{StringSets}
use vcd_csi.Driver.Create.{
  parameter, requested_size, created_volume, create_volume, delete_volume, list_volumes,
}
use vcd_csi.Driver.Publish.{
  lock_is_locked, lock_put, lock_pop, controller_publish_volume, controller_unpublish_volume,
}
use vcd_csi.Driver.Expand.{new_size, resize, controller_expand_volume}

-- What the calls of the client and the changes of the lock keep.
pub record RunsClient {S M : Type 0} (P : State S M → Type 0) (vcl : VcdService S) : Type 0 where
  pub calls : Serves P (record {
    create_disk = λ vdc name profile size. on_vcl (vcl.create_disk vdc name profile size);
    list_volumes = on_vcl vcl.list_volumes;
    delete_disk = λ name. on_vcl (vcl.delete_disk name);
    detach_disk = λ vm name. on_vcl (vcl.detach_disk vm name);
    attach_disk = λ vm name. on_vcl (vcl.attach_disk vm name);
    resize_disk = λ vdc name size. on_vcl (vcl.resize_disk vdc name size);
  })
  pub locks : (s : State S M) (lock : SimpleLock) → P s → P (record s { lock = lock })

module _ {S M : Type 0} {P : State S M → Type 0} where
  reject-Runs : (b : Bool) (e : Error) → Runs P (reject b e)
  unfolding reject
  reject-Runs b e = Runs-if b _ _ (λ h. Runs-raise e) (λ h. Runs-pure tt)

  parameter-Runs : (key : String) (parameters : Dict String) → Runs P (parameter key parameters)
  unfolding parameter
  parameter-Runs key parameters =
      Runs-option (lookup key parameters) _ _ (Runs-raise _) (λ value. Runs-pure value)

  requested_size-Runs : (range : Option CapacityRange) → Runs P (requested_size range)
  unfolding requested_size
  requested_size-Runs range =
      Runs-result (extract_storage range) _ _ (λ size. Runs-pure size) (λ e. Runs-raise _)

module _ {S M : Type 0} {P : State S M → Type 0} (vcl : VcdService S) (h : RunsClient P vcl) where
  lock_is_locked-Runs : (key : String) → Runs P (lock_is_locked key)
  unfolding lock_is_locked
  lock_is_locked-Runs key = record { keeps = λ s p. h.locks s _ p; ends = λ s p e. cc }

  lock_put-Runs : (key : String) → Runs P (lock_put key)
  unfolding lock_put
  lock_put-Runs key = record { keeps = λ s p. h.locks s _ p; ends = λ s p e. cc }

  lock_pop-Runs : (key : String) → Runs P (lock_pop key)
  unfolding lock_pop
  lock_pop-Runs key = record { keeps = λ s p. h.locks s _ p; ends = λ s p e. cc }

  pub create_volume-Runs :
      {Set : Type 0} (sets : StringSets Set) (req : CreateVolumeRequest)
      → Runs P (create_volume vcl sets req)
  unfolding create_volume
  create_volume-Runs sets req = Runs-then _ _ (reject-Runs _ _) (
      Runs-then _ _ (reject-Runs _ _) (
        Runs-then _ _ (reject-Runs _ _) (
          Runs-bind _ _ (parameter-Runs _ _) λ vdc. Runs-bind _ _ (parameter-Runs _ _) λ storage.
            Runs-bind _ _ (requested_size-Runs _) λ size.
              Runs-attempt_bind _ _ _ (h.calls.creates vdc req.name storage size) (λ a. Runs-pure _)
                (λ e.
                  Runs-if (is_disk_already_exists e) (pure (created_volume req.name vdc size)) _
                    (λ x. Runs-pure _) (λ x. Runs-raise e)))))

  pub delete_volume-Runs : (volume_id : String) → Runs P (delete_volume vcl volume_id)
  unfolding delete_volume
  delete_volume-Runs volume_id =
      Runs-then _ _ (reject-Runs _ _) (
        Runs-attempt_bind _ _ _ (h.calls.deletes volume_id) (λ a. Runs-pure tt) (λ e. Runs-raise _))

  pub list_volumes-Runs : Runs P (list_volumes vcl)
  unfolding list_volumes
  list_volumes-Runs = Runs-bind _ _ h.calls.lists (λ volumes. Runs-pure _)

  pub controller_publish_volume-Runs :
      (req : ControllerPublishVolumeRequest) → Runs P (controller_publish_volume vcl req)
  unfolding controller_publish_volume
  controller_publish_volume-Runs req = Runs-then _ _ (reject-Runs _ _) (
      Runs-then _ _ (reject-Runs _ _) (
        Runs-then _ _ (reject-Runs _ _) (
          Runs-then _ _ (reject-Runs _ _) (
            Runs-bind _ _ (lock_is_locked-Runs _) λ locked. Runs-then _ _ (reject-Runs _ _) (
              Runs-attempt_bind _ _ _ (h.calls.attaches _ _) (λ a. Runs-pure _)
                (λ e. Runs-raise _))))))

  pub controller_unpublish_volume-Runs :
      (volume_id node_id : String) → Runs P (controller_unpublish_volume vcl volume_id node_id)
  unfolding controller_unpublish_volume
  controller_unpublish_volume-Runs volume_id node_id =
      Runs-then _ _ (reject-Runs _ _)
        (Runs-attempt_bind _ _ _ (h.calls.detaches _ _) (λ a. Runs-pure tt) (λ e. Runs-raise _))

  resize-Runs :
      (req : ControllerExpandVolumeRequest) (vdc_name : String) (size : StorageSize)
      → Runs P (resize vcl req vdc_name size)
  unfolding resize
  resize-Runs req vdc_name size =
      Runs-attempt_bind _ _ _ (h.calls.resizes _ _ _)
        (λ a. Runs-bind _ _ (lock_pop-Runs _) (λ b. Runs-pure _))
        (λ e.
          Runs-if (is_disk_attached_to_vm e) _ _
            (λ x. Runs-then _ _ (lock_put-Runs _) (Runs-raise _)) (λ x. Runs-raise _))

  new_size-Runs : (range : Option CapacityRange) → Runs P (new_size vcl range)
  unfolding new_size
  new_size-Runs range =
      Runs-result (extract_storage range) _ _ (λ size. Runs-pure size) (λ e. Runs-raise _)

  pub controller_expand_volume-Runs :
      (req : ControllerExpandVolumeRequest) → Runs P (controller_expand_volume vcl req)
  unfolding controller_expand_volume
  controller_expand_volume-Runs req = Runs-bind _ _ (Runs-deref _) λ range.
      Runs-then _ _ (reject-Runs _ _) (
        Runs-bind _ _ h.calls.lists λ volumes. Runs-bind _ _ (new_size-Runs _) λ size.
          Runs-bind _ _ (Runs-deref _) λ current.
            Runs-if (leb_ℤ (bytes size) (bytes current.cap)) (pure _) (resize vcl req _ size)
              (λ x. Runs-pure _) (λ x. resize-Runs req _ size))
