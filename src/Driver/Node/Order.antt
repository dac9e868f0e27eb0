-- ===== src/Driver/Node/Order.antt =====
-- The order of what a node does to its host: a mounter is wrapped so that its state carries the
-- calls and their answers, newest first. The wrapped mounter answers as the mounter does.
use vcd_csi.Prelude.{String, List, [], ◌∷◌, Bool, true, false, ◌≡◌, arith}
use vcd_csi.Go.Exec.{ok, Outcome, returned, Exec, ◌>>=◌, zoom}
use vcd_csi.Go.Exec.Keeps.{Keeps}
use vcd_csi.Driver.State.{Mounter, State, on_host}
use vcd_csi.Go.Error.{Error}
use vcd_csi.Driver.Node.{format_once, mount_once, unmount_once, with_status}
use vcd_csi.Driver.Node.Keeps.{KeepsHost}

pub data Event : Type 0 where
  formatted : String → String → Event
  mounted : String → String → Event
  unmounted : String → Event
  format_checked : String → Outcome Bool → Event
  mount_checked : String → Outcome Bool → Event

pub record Traced (M : Type 0) : Type 0 where
  pub events : List Event
  pub inner : M

module _ {M A : Type 0} where
  abbrev silent : Exec M A → Exec (Traced M) A
  silent f t = let (a, m) = f t.inner in (a, record t { inner = m })

  abbrev noted : (Outcome A → Event) → Exec M A → Exec (Traced M) A
  noted event f t = let (a, m) = f t.inner in (a, record { events = event a ∷ t.events; inner = m })

abbrev pub traced : {M : Type 0} → Mounter M → Mounter (Traced M)
traced m = record {
  format = λ source fs_type. noted (λ _. formatted source fs_type) (m.format source fs_type);
  mount = λ source target fs_type opts.
      noted (λ _. mounted source target) (m.mount source target fs_type opts);
  unmount = λ target. noted (λ _. unmounted target) (m.unmount target);
  is_formatted = λ source. noted (format_checked source) (m.is_formatted source);
  is_mounted = λ target. noted (mount_checked target) (m.is_mounted target);
  get_statistics = λ path. silent (m.get_statistics path);
  is_block_device = λ path. silent (m.is_block_device path);
  get_disk_unit = λ size unit bus. silent (m.get_disk_unit size unit bus);
}

-- The call before it has just answered that the step is needed.
abbrev pub Guard : Event → List Event → Type 0
Guard (formatted source fs_type) (format_checked source' (returned (ok false)) ∷ t) =
    source' ≡ source
Guard (formatted source fs_type) _ = ⊥
Guard (mounted source target) (mount_checked target' (returned (ok false)) ∷ t) = target' ≡ target
Guard (mounted source target) _ = ⊥
Guard (unmounted target) (mount_checked target' (returned (ok true)) ∷ t) = target' ≡ target
Guard (unmounted target) _ = ⊥
Guard _ _ = Unit

abbrev pub IsGuarded : List Event → Type 0
IsGuarded [] = Unit
IsGuarded (e ∷ t) = Guard e t × IsGuarded t

-- Every call on the host had what it needs before it.
abbrev pub Guarded : {S M : Type 0} → State S (Traced M) → Type 0
Guarded s = IsGuarded s.host.events

module _ {S M : Type 0} (m : Mounter M) where
  format_once-IsGuarded :
      (source fs_type : String)
      → Keeps {S = State S (Traced M)} Guarded (format_once (traced m) source fs_type)
  unfolding format_once with_status on_host zoom ◌>>=◌
  format_once-IsGuarded source fs_type = record { at = λ s h. ground arith }

  mount_once-IsGuarded :
      (to_status : Error → Error) (source target fs_type : String) (opts : List String)
      → Keeps {S = State S (Traced M)} Guarded
          (mount_once (traced m) to_status source target fs_type opts)
  unfolding mount_once with_status on_host zoom ◌>>=◌
  mount_once-IsGuarded to_status source target fs_type opts = record { at = λ s h. ground arith }

  unmount_once-IsGuarded :
      (target : String) → Keeps {S = State S (Traced M)} Guarded (unmount_once (traced m) target)
  unfolding unmount_once on_host zoom ◌>>=◌
  unmount_once-IsGuarded target = record { at = λ s h. ground arith }

  pub traced-KeepsHost : KeepsHost {S = S} Guarded (traced m)
  unfolding on_host zoom
  traced-KeepsHost = record {
    formats = format_once-IsGuarded;
    mounts = mount_once-IsGuarded;
    unmounts = unmount_once-IsGuarded;
    finds = λ size unit bus. record { at = λ s h. h };
    sees = λ target. record { at = λ s h. (tt, h) };
    tells = λ path. record { at = λ s h. h };
    counts = λ path. record { at = λ s h. h };
  }
