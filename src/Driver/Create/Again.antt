-- ===== src/Driver/Create/Again.antt =====
-- `CreateVolume` of a volume whose disk is there already, with the client of the cloud behind it.
use vcd_csi.Prelude.{ℕ, String, List, [], ◌∷◌, ◌≡◌, ap, ◌∙◌, false, some, arith, eqb}
use vcd_csi.Prelude.Dict.{lookup}
use mathlib.Core.Path.{subst}
use vcd_csi.Go.Exec.{ok, Outcome, returned, ◌>>=◌}
use vcd_csi.StorageSize.{StorageSize, bytes}
use vcd_csi.Config.{ControllerConfig}
use vcd_csi.Cloud.{Cloud, Handle, Disk}
use vcd_csi.Vcd.State.{VcdClient, call, with_mutex, unlock, refresh_auth}
use vcd_csi.Vcd.Find.{disks_exists}
use vcd_csi.Vcd.Service.{Visit, method, create_in, create_disk}
use vcd_csi.Vcd.Trace.{listed, Traced, traced}
use vcd_csi.Csi.{CreateVolumeRequest, Volume}
use vcd_csi.Driver.State.{State}
use vcd_csi.Driver.Capabilities.{StringSets}
use vcd_csi.Driver.Client.{vcd_service}
use vcd_csi.Driver.Create.{create_volume}
use vcd_csi.Driver.Create.Laws.{Asks, Answered, create_volume-Asks}

module _ {W : Type 0} (cloud : Cloud W) (c : ControllerConfig) (client : Handle)
    (name : String) where
  -- The session is valid, the data centre can be refreshed, and the cloud lists disks of the name.
  pub record Has (disks : List Disk) : Type 0 where
    pub code : ℕ
    pub fresh : eqb code 401 ≡ false
    pub authorized : (w : W) → (cloud.get_auth_response c.cloud_credentials w).0 ≡ ok code
    pub reached : (w : W) → (cloud.refresh client w).0 ≡ ok tt
    pub found : (w : W) → (cloud.get_disks_by_name client name false w).0 ≡ ok disks

  module _ {disks : List Disk} (h : Has disks) where
    create_disk-Has :
        (vdc profile : String) (size : StorageSize) (s : VcdClient (Traced W))
        → s.locked ≡ false
        → lookup vdc s.vdc_clients ≡ some client
        → let r = create_disk (traced cloud) c vdc name profile size s in
          (r.0 ≡ returned (ok tt))
          × (r.1.cloud.events ≡ listed client name (ok disks) ∷ s.cloud.events)
    unfolding create_disk method with_mutex unlock refresh_auth create_in disks_exists call ◌>>=◌
    create_disk-Has vdc profile size s l e = ground (
      arith,
      h.fresh,
      h.authorized s.cloud.world,
      h.reached (cloud.get_auth_response c.cloud_credentials s.cloud.world).1,
      h.found
          (cloud.refresh client (cloud.get_auth_response c.cloud_credentials s.cloud.world).1).1,
    )

passed_on :
    (volume : Volume) (made : Outcome (Unit {0})) (answer : Outcome Volume)
    → made ≡ returned (ok tt)
    → Answered volume made answer
    → answer ≡ returned (ok volume)
passed_on volume made answer e h = subst (λ o. Answered volume o answer) e h

module _ {W M Set : Type 0} (cloud : Cloud W) (c : ControllerConfig) (visit : Visit)
    (sets : StringSets Set) (req : CreateVolumeRequest) where
  -- If the session is valid and the cloud lists disks of the name in the configured data centre,
  -- then a request that has all it needs is answered by the volume of its name with the size that
  -- it asks for and the data centre as its zone, whatever the size of those disks, and the one
  -- thing that the cloud is asked about disks is that listing.
  pub create_volume-Has :
      (vcd profile : String) (size : StorageSize) (client : Handle) (disks : List Disk)
      (s : State (VcdClient (Traced W)) M)
      → Asks sets req vcd profile size
      → s.vcl.locked ≡ false
      → lookup vcd s.vcl.vdc_clients ≡ some client
      → Has cloud c client req.name disks
      → let r = create_volume (vcd_service (traced cloud) c visit) sets req s in
        (r.0
          ≡ returned (
              ok (record {
                volume_id = req.name;
                capacity_bytes = bytes size;
                accessible_topology = (("failure-domain.beta.kubernetes.io/zone", vcd) ∷ []) ∷ [];
              })))
        × (r.1.vcl.cloud.events ≡ listed client req.name (ok disks) ∷ s.vcl.cloud.events)
  unfolding vcd_service
  create_volume-Has vcd profile size client disks s asks l e h =
      let made = create_disk-Has cloud c client req.name h vcd profile size s.vcl l e in
      let answer =
        create_volume-Asks (vcd_service (traced cloud) c visit) sets req vcd profile size s asks in
      (passed_on _ _ _ made.0 answer.0, ap (λ t. t.vcl.cloud.events) answer.1 ∙ made.1)
