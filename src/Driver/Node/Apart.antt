-- ===== src/Driver/Node/Apart.antt =====
-- The node's handlers and the client: what holds of the client stays.
use vcd_csi.Prelude.{String, List}
use vcd_csi.Go.Exec.{Exec}
use vcd_csi.Go.Exec.Keeps.{Keeps, Keeps-pure, Keeps-raise, Keeps-bind, Keeps-if, Keeps-attempt}
use vcd_csi.Driver.State.{Mounter, State, on_host}
use vcd_csi.Go.Error.{Error}
use vcd_csi.Driver.Node.{format_once, mount_once, unmount_once, with_status}
use vcd_csi.Driver.Node.Keeps.{KeepsHost}

module _ {S M A : Type 0} {P Q : State S M → Type 0} {m : Exec (State S M) A} where
  Keeps-both : Keeps P m → Keeps Q m → Keeps (λ s. P s × Q s) m
  Keeps-both h k = record { at = λ s p. (h.at s p.0, k.at s p.1) }

-- Two predicates together.
pub KeepsHost-both :
    {S M : Type 0} {P Q : State S M → Type 0} {m : Mounter M}
    → KeepsHost P m
    → KeepsHost Q m
    → KeepsHost (λ s. P s × Q s) m
KeepsHost-both h k = record {
  formats = λ source fs_type. Keeps-both (h.formats source fs_type) (k.formats source fs_type);
  mounts = λ f source target fs_type options.
      Keeps-both (h.mounts f source target fs_type options)
        (k.mounts f source target fs_type options);
  unmounts = λ target. Keeps-both (h.unmounts target) (k.unmounts target);
  finds = λ size unit bus. Keeps-both (h.finds size unit bus) (k.finds size unit bus);
  sees = λ target. Keeps-both (h.sees target) (k.sees target);
  tells = λ path. Keeps-both (h.tells path) (k.tells path);
  counts = λ path. Keeps-both (h.counts path) (k.counts path);
}

module _ {S M : Type 0} (R : S → Type 0) (m : Mounter M) where
  on_host-apart :
      {A : Type 0} (call : Exec M A) → Keeps {S = State S M} (λ s. R s.vcl) (on_host call)
  unfolding on_host
  on_host-apart call = record { at = λ s p. p }

  format_once-apart :
      (source fs_type : String)
      → Keeps {S = State S M} (λ s. R s.vcl) (format_once m source fs_type)
  unfolding format_once with_status
  format_once-apart source fs_type = Keeps-bind _ _ (on_host-apart _) λ b.
      Keeps-if b _ _ (Keeps-pure tt)
        (Keeps-attempt _ _ _ (on_host-apart _) (λ a. Keeps-pure a) (λ e. Keeps-raise _))

  mount_once-apart :
      (to_status : Error → Error) (source target fs_type : String) (options : List String)
      → Keeps {S = State S M} (λ s. R s.vcl) (mount_once m to_status source target fs_type options)
  unfolding mount_once with_status
  mount_once-apart to_status source target fs_type options = Keeps-bind _ _ (on_host-apart _) λ b.
      Keeps-if b _ _ (Keeps-pure tt)
        (Keeps-attempt _ _ _ (on_host-apart _) (λ a. Keeps-pure a) (λ e. Keeps-raise _))

  unmount_once-apart :
      (target : String) → Keeps {S = State S M} (λ s. R s.vcl) (unmount_once m target)
  unfolding unmount_once
  unmount_once-apart target =
      Keeps-bind _ _ (on_host-apart _) λ b. Keeps-if b _ _ (on_host-apart _) (Keeps-pure tt)

  pub apart-KeepsHost : KeepsHost {S = S} (λ s. R s.vcl) m
  apart-KeepsHost = record {
    formats = format_once-apart;
    mounts = mount_once-apart;
    unmounts = unmount_once-apart;
    finds = λ size unit bus. on_host-apart _;
    sees = λ target. on_host-apart _;
    tells = λ path. on_host-apart _;
    counts = λ path. on_host-apart _;
  }
