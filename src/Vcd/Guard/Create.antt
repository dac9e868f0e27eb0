-- ===== src/Vcd/Guard/Create.antt =====
-- `CreateDisk` of pkg/vcd-client/client.go, against the guards.
use vcd_csi.Prelude.{
  String, List, ◌∷◌, refl, sym, Bool, true, false, Option, none, some, if◌then◌else◌,
}
use mathlib.Core.Path.{subst}
use vcd_csi.Go.Exec.{pure, ◌>>=◌}
use vcd_csi.Go.Exec.Runs.{Runs, Runs-bind, Runs-raise, Runs-gets}
use vcd_csi.Go.Exec.Ensures.{
  Ensures, Runs-Ensures, Ensures-Runs, Ensures-bind, Ensures-after, Ensures-pure,
}
use vcd_csi.StorageSize.{StorageSize}
use vcd_csi.Config.{ControllerConfig}
use vcd_csi.Cloud.{Cloud, Handle, DiskCreateParams}
use vcd_csi.Vcd.Service.{create_task, creation, create_absent, create_in, create_disk}
use vcd_csi.Vcd.Trace.{Event, created, traced}
use vcd_csi.Vcd.Guard.{On, IsGuarded, Guard}
use vcd_csi.Vcd.Guard.Calls.{silent-Runs, wait-Runs, Absent, ExistsOr, disks_exists-Ensures}
use vcd_csi.Vcd.Guard.Idle.{IsIdle, method-Runs}

module _ {W : Type 0} (cloud : Cloud W) (c : ControllerConfig) where
  create_task-Ensures :
      (client : Handle) (params : DiskCreateParams)
      → Ensures
          (On (λ t. Absent cloud client params.name t × IsGuarded t))
          (create_task (traced cloud) c client params)
          (λ _. On IsGuarded)
          (On IsGuarded)
  unfolding create_task ◌>>=◌
  create_task-Ensures client params = record { at = λ s p. (p.0, guarded s.cloud.events p.1) }
    where
      guarded :
          (t : List Event)
          → Absent cloud client params.name t × IsGuarded t
          → IsGuarded (created client params ∷ t)
      guarded t ((e, q, (rest, eq)), h) =
          (subst (Guard (created client params)) (sym eq) (refl, refl, q), h)

  -- Creating a disk that the last listing did not find.
  create_absent-Ensures :
      (client : Handle) (name profile : String) (capacity : StorageSize)
      → Ensures
          (On (λ t. Absent cloud client name t × IsGuarded t))
          (create_absent (traced cloud) c client name profile capacity)
          (λ _. On IsGuarded)
          (On IsGuarded)
  unfolding create_absent
  create_absent-Ensures client name profile capacity =
      Ensures-bind _
        (Ensures-after _ _ _ _ (λ a s p. p) (λ s p. (p.0, p.1.1))
          (Ensures-Runs (silent-Runs (λ t. Absent cloud client name t × IsGuarded t) _)))
        λ storage_reference.
          Ensures-bind (λ _. On IsGuarded)
            (create_task-Ensures client (creation (traced cloud) c name capacity storage_reference))
            λ task. Ensures-Runs (wait-Runs cloud task)

  create_in-Runs :
      (client : Option Handle) (vdc_name name profile : String) (capacity : StorageSize)
      → Runs (On IsGuarded) (create_in (traced cloud) c client vdc_name name profile capacity)
  unfolding create_in
  create_in-Runs none vdc_name name profile capacity = Runs-raise _
  create_in-Runs (some client) vdc_name name profile capacity =
      Runs-bind _ _ (silent-Runs IsGuarded _) λ _.
        Runs-Ensures
          (Ensures-bind _ (disks_exists-Ensures cloud client name) λ exists. absent exists)
    where
      absent :
          (exists : Bool)
          → Ensures
              (On {W = W} (ExistsOr cloud client name exists))
              (if exists
                then pure tt
                else create_absent (traced cloud) c client name profile capacity)
              (λ _. On IsGuarded)
              (On IsGuarded)
      absent true = Ensures-pure tt (λ s p. p)
      absent false = create_absent-Ensures client name profile capacity

  -- Each method keeps the client idle between calls.
  pub create_disk-Runs :
      (vdc_name name profile : String) (capacity : StorageSize)
      → Runs IsIdle (create_disk (traced cloud) c vdc_name name profile capacity)
  unfolding create_disk
  create_disk-Runs vdc_name name profile capacity =
      method-Runs cloud c _
        (Runs-bind _ _ (Runs-gets _) λ client. create_in-Runs client vdc_name name profile capacity)
