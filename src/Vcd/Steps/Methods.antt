-- ===== src/Vcd/Steps/Methods.antt =====
-- The methods of pkg/vcd-client/client.go, with their bodies in steps.
use vcd_csi.Prelude.{String, []}
use vcd_csi.Go.Exec.{Exec}
use vcd_csi.StorageSize.{StorageSize}
use vcd_csi.Config.{ControllerConfig}
use vcd_csi.Cloud.{Cloud}
use vcd_csi.Vcd.State.{VcdClient}
use vcd_csi.Vcd.Service.{
  Visit, method, clients_in, list_volumes, create_disk, delete_disk, detach_volume, attach_disk,
  resize_disk,
}
use vcd_csi.Vcd.Trace.{Traced, traced}
use vcd_csi.Vcd.Steps.{Cut-bind, Method, Method-with_mutex}
use vcd_csi.Vcd.Steps.Calls.{Onward, InSteps, gets-Cut, refresh_auth-Cut}
use vcd_csi.Vcd.Steps.Bodies.{
  list_clients-Cut, create_in-Cut, delete_from-Cut, detach_from-Cut, attach_from-Cut, resize_in-Cut,
}

module _ {W : Type 0} (cloud : Cloud W) (c : ControllerConfig) where
  method-Method :
      {A : Type 0} (m : Exec (VcdClient (Traced W)) A)
      → InSteps m
      → Method Onward (method (traced cloud) c m)
  unfolding method
  method-Method m h = Method-with_mutex _ (Cut-bind _ _ (refresh_auth-Cut cloud c) (λ _. h))

  pub list_volumes-Method : (visit : Visit) → Method Onward (list_volumes (traced cloud) c visit)
  unfolding list_volumes clients_in
  list_volumes-Method visit =
      method-Method _ (Cut-bind _ _ (gets-Cut _) λ clients. list_clients-Cut cloud c clients [])

  pub create_disk-Method :
      (vdc_name name profile : String) (capacity : StorageSize)
      → Method Onward (create_disk (traced cloud) c vdc_name name profile capacity)
  unfolding create_disk
  create_disk-Method vdc_name name profile capacity = method-Method _ (
      Cut-bind _ _ (gets-Cut _)
        λ client. create_in-Cut cloud c client vdc_name name profile capacity)

  pub delete_disk-Method :
      (visit : Visit) (name : String) → Method Onward (delete_disk (traced cloud) c visit name)
  unfolding delete_disk clients_in
  delete_disk-Method visit name =
      method-Method _ (Cut-bind _ _ (gets-Cut _) λ clients. delete_from-Cut cloud c name clients)

  pub detach_volume-Method :
      (visit : Visit) (vm name : String)
      → Method Onward (detach_volume (traced cloud) c visit vm name)
  unfolding detach_volume clients_in
  detach_volume-Method visit vm name =
      method-Method _ (Cut-bind _ _ (gets-Cut _) λ clients. detach_from-Cut cloud c name clients)

  pub attach_disk-Method :
      (visit : Visit) (vm name : String)
      → Method Onward (attach_disk (traced cloud) c visit vm name)
  unfolding attach_disk clients_in
  attach_disk-Method visit vm name =
      method-Method _
        (Cut-bind _ _ (gets-Cut _) λ clients. attach_from-Cut cloud c visit vm name clients)

  pub resize_disk-Method :
      (vdc_name name : String) (size : StorageSize)
      → Method Onward (resize_disk (traced cloud) c vdc_name name size)
  unfolding resize_disk
  resize_disk-Method vdc_name name size =
      method-Method _ (Cut-bind _ _ (gets-Cut _) λ client. resize_in-Cut cloud c client name size)
