-- ===== src/Vcd/Guard.antt =====
-- What must stand before a request that changes the cloud, by the events that lead up to it. The
-- methods of the client are held against it in the children.
pub mod Calls
pub mod Detach
pub mod Attach
pub mod Idle
pub mod Create
pub mod Methods
pub mod Session
pub mod Full
use vcd_csi.Prelude.{String, List, [], ◌∷◌, ◌≡◌, ◌⊎◌, true, Option, none, some, Any}
use vcd_csi.Go.Int.{pos}
use vcd_csi.Go.Error.{is_entity_not_found}
use vcd_csi.Go.Exec.{ok, err}
use vcd_csi.Cloud.{Handle, Reference, Disk, DiskSettings, Vm, AttachParams}
use vcd_csi.Vcd.State.{VcdClient}
use vcd_csi.Vcd.Units.Marks.{Uses, IsReserved}
use vcd_csi.Vcd.Units.Laws.{IsFull}
use vcd_csi.Vcd.Trace.{
  Event, listed, asked, fetched, created, deleted, updated, attached, detached, waited, Traced,
}

-- A setting of a machine lists the disk.
abbrev pub Lists : String → Option DiskSettings → Type 0
Lists href none = ⊥
Lists href (some s) = (r : Reference) × (s.disk ≡ some r) × (r.href ≡ href)

-- A setting of a machine is the one that a request names.
abbrev pub Names : AttachParams → Option DiskSettings → Type 0
Names p none = ⊥
Names p (some s) =
    (s.disk ≡ some p.disk) × (s.bus_number ≡ p.bus_number) × (s.unit_number ≡ p.unit_number)

-- The disk is the only one that the last listing has under its name, and `B` holds of what was
-- known before.
abbrev pub Single : (List Event → Type 0) → Handle → String → Disk → List Event → Type 0
Single B client name d t =
    (rest : List Event) × (t ≡ listed client name (ok (d ∷ [])) ∷ rest) × B rest

-- The last event is the cloud's answer about the disk.
abbrev pub Told : (List Event → Type 0) → Disk → Option Reference → List Event → Type 0
Told B d o t = (rest : List Event) × (t ≡ asked d (ok o) ∷ rest) × B rest

-- The machine that holds the disk has just been fetched.
abbrev pub Holding : (List Event → Type 0) → Disk → Reference → Vm → List Event → Type 0
Holding B d r vm t = (rest : List Event) × (t ≡ fetched vm ∷ rest) × Told B d (some r) rest

-- The cloud has accepted to take the disk off the machine that held it, at a setting of that
-- machine, and the task of it has ended well.
abbrev pub Released : (List Event → Type 0) → Disk → List Event → Type 0
Released B d t =
    (task : Handle) × (vm : Vm) × (p : AttachParams) × (r : Reference) × (rest : List Event) × (t
      ≡ waited task (ok tt) ∷ detached vm p (ok task) ∷ rest)
    × (p.disk.href ≡ d.href)
    × Any (Names p) vm.disk_settings
    × Holding B d r vm rest

-- The last that is known of a disk that was looked up: no machine holds it, or the machine that
-- holds it lists no setting of it, or it has been taken off.
pub data Unattached (B : List Event → Type 0) (d : Disk) (t : List Event) : Type 0 where
  unheld : Told B d none t → Unattached B d t
  unlisted :
      (vm : Vm) (r : Reference)
      → (¬ Any (Lists d.href) vm.disk_settings)
      → Holding B d r vm t
      → Unattached B d t
  released : Released B d t → Unattached B d t

-- Right before, the disk was found, alone under its name, and a machine held it.
abbrev pub Held : Handle → String → Disk → List Event → Type 0
Held client name d t = (r : Reference) × Told (Single (λ _. Unit) client name d) d (some r) t

-- A disk may go if it is the only one under its name and the cloud has just said that no machine
-- holds it; or if a machine held it, and the one disk that was then found again under that name
-- in the same data centre is on no machine any more.
pub data Free (d : Disk) (t : List Event) : Type 0 where
  never :
      (client : Handle) (name : String)
      → Told (Single (λ _. Unit) client name d) d none t
      → Free d t
  freed :
      (client : Handle) (name : String) (d' : Disk)
      → Unattached (Single (Held client name d) client name d') d' t
      → Free d t

-- A unit of the driver that no disk of the machine uses, or 0 if there is none.
abbrev pub TakesUnit : Vm → AttachParams → Type 0
TakesUnit vm p =
    (IsReserved p.unit_number × (¬ Any (Uses p.bus_number p.unit_number) vm.disk_settings))
    ⊎ ((p.unit_number ≡ pos 0) × IsFull vm p.bus_number)

abbrev pub Guard : Event → List Event → Type 0
Guard (created v p) (listed u n (err e) ∷ t) =
    (u ≡ v) × (n ≡ p.name) × (is_entity_not_found e ≡ true)
Guard (created v p) _ = ⊥
Guard (deleted d) t = Free d t
Guard (updated d n size) (asked d' (ok none) ∷ t) = (d' ≡ d) × (n ≡ d.name)
Guard (updated d n size) _ = ⊥
Guard (attached vm p) t = TakesUnit vm p
Guard (detached vm p r) (fetched vm' ∷ asked d (ok (some h)) ∷ t) =
    (vm' ≡ vm) × (p.disk.href ≡ d.href) × Any (Names p) vm.disk_settings
Guard (detached vm p r) _ = ⊥
Guard _ _ = Unit

-- Every event has what it needs before it.
abbrev pub IsGuarded : List Event → Type 0
IsGuarded [] = Unit
IsGuarded (e ∷ t) = Guard e t × IsGuarded t

-- The client holds its mutex, and the events satisfy `R`.
abbrev pub On : {W : Type 0} → (List Event → Type 0) → VcdClient (Traced W) → Type 0
On R s = (s.locked ≡ true) × R s.cloud.events
