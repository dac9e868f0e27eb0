-- ===== src/Mount/Trace.antt =====
-- A record of the commands that a host is asked to look up and to run, newest first: a host is wrapped
-- so that its state carries them. The wrapped host answers as the host does.
use vcd_csi.Prelude.{String, List, ◌∷◌}
use vcd_csi.Mount.Host.{Host, LookPath, Output, Run}

pub data Event : Type 0 where
  looked : String → LookPath → Event
  ran : String → List String → Output → Event
  checked : String → List String → Run → Event

pub record Traced (H : Type 0) : Type 0 where
  pub events : List Event
  pub inner : H

module _ {H A : Type 0} where
  abbrev pub silent : (H → A × H) → Traced H → A × Traced H
  silent f t = let (a, h) = f t.inner in (a, record t { inner = h })

  abbrev noted : (A → Event) → (H → A × H) → Traced H → A × Traced H
  noted event f t = let (a, h) = f t.inner in (a, record { events = event a ∷ t.events; inner = h })

abbrev pub traced : {H : Type 0} → Host H → Host (Traced H)
traced host = record {
  look_path = λ cmd. noted (looked cmd) (host.look_path cmd);
  combined_output = λ cmd args. noted (ran cmd args) (host.combined_output cmd args);
  run = λ cmd args. noted (checked cmd args) (host.run cmd args);
  dir = host.dir;
  mkdir_all = λ path perm. silent (host.mkdir_all path perm);
  create_file = λ path perm. silent (host.create_file path perm);
  stat = λ path. silent (host.stat path);
  statfs = λ path. silent (host.statfs path);
  block = silent host.block;
  unmarshal = host.unmarshal;
}
