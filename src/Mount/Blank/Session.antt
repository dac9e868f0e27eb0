-- ===== src/Mount/Blank/Session.antt =====
-- The handlers of internal/driver/node.go over the mounter of internal/mount/mounter.go.
use vcd_csi.Prelude.{String, List, refl, Bool, true, false, if◌then◌else◌}
use vcd_csi.Go.Error.{Error}
use vcd_csi.Go.Exec.{Result, ok, err, Exec, pure, raise}
use vcd_csi.Go.Exec.Runs.{Runs}
use vcd_csi.Go.Exec.Ensures.{
  Ensures, Runs-Ensures, Ensures-bind, Ensures-raise, Ensures-pure, Ensures-attempt, Ensures-zoom,
  Answer,
}
use vcd_csi.Go.Exec.Keeps.{
  Keeps, Keeps-pure, Keeps-raise, Keeps-bind, Keeps-if, Keeps-attempt, Keeps-Runs, Keeps-zoom,
}
use vcd_csi.Driver.State.{State, on_host}
use vcd_csi.Driver.Node.{format_once, mount_once, unmount_once, with_status, internal_error}
use vcd_csi.Driver.Node.Keeps.{KeepsHost}
use vcd_csi.Mount.Host.{Host}
use vcd_csi.Mount.Handler.{new_mounter}
use vcd_csi.Mount.Trace.{Traced, traced}
use vcd_csi.Mount.Blank.{Blank, Safe}
use vcd_csi.Mount.Blank.Others.{
  is_mounted-Runs, mount-Runs, unmount-Runs, is_block_device-Runs, get_statistics-Runs,
  get_disk_unit-Runs,
}
use vcd_csi.Mount.Blank.Format.{Reads, is_formatted-Ensures, format-Ensures}

module _ {S H : Type 0} (host : Host H) where
  on_host-Keeps :
      {A : Type 0} (m : Exec (Traced H) A)
      → Runs Safe m
      → Keeps {S = State S (Traced H)} Blank (on_host m)
  unfolding on_host
  on_host-Keeps m r = Keeps-zoom _ (λ h s. record s { host = h }) m (λ t s. refl) (Keeps-Runs r)

  on_host-Ensures :
      {A : Type 0} {P : Traced H → Type 0} {Q : A → Traced H → Type 0} {m : Exec (Traced H) A}
      → Ensures P m Q Safe
      → Ensures {S = State S (Traced H)} (λ s. P s.host) (on_host m) (λ a s. Q a s.host) Blank
  unfolding on_host
  on_host-Ensures e = Ensures-zoom _ _ _ {put = λ h s. record s { host = h }} (λ t s. refl) e

  format_status-Ensures :
      (source fs_type : String)
      → Ensures {S = State S (Traced H)}
          (λ s. Reads source false s.host)
          (with_status
            (new_mounter (traced host))
            internal_error
            ((new_mounter (traced host)).format source fs_type))
          (λ _. Blank)
          Blank
  unfolding with_status new_mounter
  format_status-Ensures source fs_type =
      Ensures-bind _ (Ensures-attempt _ _ (on_host-Ensures (format-Ensures host source fs_type)))
        answer
    where
      answer :
          (r : Result (Unit {0}))
          → Ensures {S = State S (Traced H)}
              (Answer (λ _. Blank) Blank r)
              (elim r [ ok a ↦ pure a | err e ↦ raise (internal_error e) ])
              (λ _. Blank)
              Blank
      answer (ok a) = Ensures-pure a (λ s p. p)
      answer (err e) = Ensures-raise _ (λ s p. p)

  format_once-Keeps :
      (source fs_type : String)
      → Keeps {S = State S (Traced H)} Blank
          (format_once (new_mounter (traced host)) source fs_type)
  unfolding format_once new_mounter
  format_once-Keeps source fs_type =
      Keeps-Runs (
        Runs-Ensures
          (Ensures-bind _ (on_host-Ensures (is_formatted-Ensures host source)) formatted))
    where
      formatted :
          (b : Bool)
          → Ensures {S = State S (Traced H)}
              (λ s. Reads source b s.host)
              (if b
                then pure tt
                else with_status
                    (new_mounter (traced host))
                    internal_error
                    ((new_mounter (traced host)).format source fs_type))
              (λ _. Blank)
              Blank
      formatted true = Ensures-pure tt (λ s p. p)
      formatted false = format_status-Ensures source fs_type

  mount_once-Keeps :
      (to_status : Error → Error) (source target fs_type : String) (options : List String)
      → Keeps {S = State S (Traced H)} Blank
          (mount_once (new_mounter (traced host)) to_status source target fs_type options)
  unfolding mount_once with_status new_mounter
  mount_once-Keeps to_status source target fs_type options =
      Keeps-bind _ _ (on_host-Keeps _ (is_mounted-Runs host target)) λ b.
        Keeps-if b _ _ (Keeps-pure tt) (
          Keeps-attempt _ _ _ (on_host-Keeps _ (mount-Runs host source target fs_type options))
            (λ a. Keeps-pure a) (λ e. Keeps-raise _))

  unmount_once-Keeps :
      (target : String)
      → Keeps {S = State S (Traced H)} Blank (unmount_once (new_mounter (traced host)) target)
  unfolding unmount_once new_mounter
  unmount_once-Keeps target =
      Keeps-bind _ _ (on_host-Keeps _ (is_mounted-Runs host target))
        λ b. Keeps-if b _ _ (on_host-Keeps _ (unmount-Runs host target)) (Keeps-pure tt)

  pub new_mounter-KeepsHost : KeepsHost {S = S} Blank (new_mounter (traced host))
  unfolding new_mounter
  new_mounter-KeepsHost = record {
    formats = format_once-Keeps;
    mounts = mount_once-Keeps;
    unmounts = unmount_once-Keeps;
    finds = λ size unit bus. on_host-Keeps _ (get_disk_unit-Runs host size unit bus);
    sees = λ target. on_host-Keeps _ (is_mounted-Runs host target);
    tells = λ path. on_host-Keeps _ (is_block_device-Runs host path);
    counts = λ path. on_host-Keeps _ (get_statistics-Runs host path);
  }
