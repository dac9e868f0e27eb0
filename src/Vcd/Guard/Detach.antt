-- ===== src/Vcd/Guard/Detach.antt =====
-- `detachDisk` of pkg/vcd-client/client.go, against the guards.
use vcd_csi.Prelude.{
  String, List, [], ◌∷◌, ◌≡◌, false, refl, sym, Option, none, some, ◌==◌, eq_iff, if◌then◌else◌,
  inl, inr, ap, arith, Any, first, later, Any-nil, Any-cons,
}
use mathlib.Core.Path.{subst}
use vcd_csi.Go.Exec.{Result, ok, err, Exec, ◌>>=◌}
use vcd_csi.Go.Exec.Runs.{Runs}
use vcd_csi.Go.Exec.Ensures.{
  Ensures, Ensures-pure, Ensures-panic, Ensures-if, Ensures-bind, Ensures-after, Runs-Ensures,
}
use vcd_csi.Cloud.{Cloud, Handle, Reference, Disk, DiskSettings, Vm, AttachParams}
use vcd_csi.Vcd.State.{VcdClient, call}
use vcd_csi.Vcd.Detach.{release, detach_setting, detach_from_vm, detach_disk}
use vcd_csi.Vcd.Trace.{Event, fetched, asked, detached, waited, Traced, traced}
use vcd_csi.Vcd.Guard.{
  On, IsGuarded, Lists, Names, Single, Told, Holding, Released, Unattached, unheld, unlisted,
  released,
}
use vcd_csi.Vcd.Guard.Calls.{noted-Ensures, get_vm_by_name-Ensures, get_disk_by_name-Ensures}

module _ {B C : List Event → Type 0} (h : (t : List Event) → B t → C t) where
  Told-map : (d : Disk) (o : Option Reference) (t : List Event) → Told B d o t → Told C d o t
  Told-map d o t (rest, e, b) = (rest, e, h rest b)

  Holding-map :
      (d : Disk) (r : Reference) (vm : Vm) (t : List Event)
      → Holding B d r vm t
      → Holding C d r vm t
  Holding-map d r vm t (rest, e, b) = (rest, e, Told-map d (some r) rest b)

  -- What let the disk go does not depend on what is claimed of the events before.
  pub Unattached-map : (d : Disk) (t : List Event) → Unattached B d t → Unattached C d t
  Unattached-map d t (unheld b) = unheld (Told-map d none t b)
  Unattached-map d t (unlisted vm r none_lists b) =
      unlisted vm r none_lists (Holding-map d r vm t b)
  Unattached-map d t (released (task, vm, p, r, rest, e, same, named, b)) =
      released (task, vm, p, r, rest, e, same, named, Holding-map d r vm rest b)

module _ {B : List Event → Type 0} (g : (t : List Event) → B t → IsGuarded t) where
  pub Told-IsGuarded :
      (disk : Disk) (o : Option Reference) (t : List Event) → Told B disk o t → IsGuarded t
  Told-IsGuarded disk o t (rest, e, b) = subst IsGuarded (sym e) (tt, g rest b)

  Holding-IsGuarded :
      (disk : Disk) (r : Reference) (vm : Vm) (t : List Event) → Holding B disk r vm t → IsGuarded t
  Holding-IsGuarded disk r vm t (rest, e, b) =
      subst IsGuarded (sym e) (tt, Told-IsGuarded disk (some r) rest b)

  -- Taking the disk off a machine that was fetched for it has its guard.
  detached-IsGuarded :
      (disk : Disk) (r : Reference) (vm : Vm) (p : AttachParams) (a : Result Handle)
      (t : List Event)
      → p.disk.href ≡ disk.href
      → Any (Names p) vm.disk_settings
      → Holding B disk r vm t
      → IsGuarded (detached vm p a ∷ t)
  detached-IsGuarded disk r vm p a t same named (rest, e, (rest', e', b)) =
      subst (λ u. IsGuarded (detached vm p a ∷ u)) (sym e)
        (subst (λ u. IsGuarded (detached vm p a ∷ fetched vm ∷ u)) (sym e')
          ((refl, same, named), (tt, (tt, g rest' b))))

-- The events are guarded, and the disk is on no machine any more.
abbrev pub IsLoose : (List Event → Type 0) → Disk → List Event → Type 0
IsLoose B d t = Unattached B d t × IsGuarded t

module _ {W : Type 0} (cloud : Cloud W) (B : List Event → Type 0)
    (g : (t : List Event) → B t → IsGuarded t) where
  module _ (disk : Disk) (r : Reference) (vm : Vm) where
    -- The request was accepted; what is left is its task.
    abbrev Accepted : AttachParams → Handle → List Event → Type 0
    Accepted p task t =
        ((rest : List Event) × (t ≡ detached vm p (ok task) ∷ rest) × Holding B disk r vm rest)
        × IsGuarded t

    detach_call-Ensures :
        (p : AttachParams)
        → p.disk.href ≡ disk.href
        → Any (Names p) vm.disk_settings
        → Ensures
            (On (Holding B disk r vm))
            (call ((traced cloud).detach_disk vm p))
            (λ task. On (Accepted p task))
            (On IsGuarded)
    detach_call-Ensures p same named =
        noted-Ensures (Accepted p) IsGuarded (detached vm p) _
          (λ t a h. ((t, refl, h), detached-IsGuarded g disk r vm p (ok a) t same named h))
          (λ t e h. detached-IsGuarded g disk r vm p (err e) t same named h)

    wait-Ensures :
        (p : AttachParams) (task : Handle)
        → p.disk.href ≡ disk.href
        → Any (Names p) vm.disk_settings
        → Ensures
            (On (Accepted p task))
            (call ((traced cloud).wait_task_completion task))
            (λ _. On (IsLoose B disk))
            (On IsGuarded)
    wait-Ensures p task same named =
        noted-Ensures (λ _. IsLoose B disk) IsGuarded (waited task) _
          (λ t a h. (released (loose t a h.0), (tt, h.1))) (λ t e h. (tt, h.1))
      where
        loose :
            (t : List Event) (a : Unit {0})
            → ((rest : List Event) × (t ≡ detached vm p (ok task) ∷ rest)
                × Holding B disk r vm rest)
            → Released B disk (waited task (ok a) ∷ t)
        loose t a (rest, e, b) =
            (task, vm, p, r, rest, ap (λ u. waited task (ok tt) ∷ u) e, same, named, b)

    unlisted-IsLoose :
        (t : List Event)
        → (¬ Any (Lists disk.href) vm.disk_settings)
        → Holding B disk r vm t
        → IsLoose B disk t
    unlisted-IsLoose t none_lists b =
        (unlisted vm r none_lists b, Holding-IsGuarded g disk r vm t b)

    -- The body of the loop: it asks for this setting's release or goes on.
    setting-Ensures :
        (setting : DiskSettings) (o : Option Reference)
        (next : Exec (VcdClient (Traced W)) (Unit {0}))
        → setting.disk ≡ o
        → ((p : AttachParams) → Names p (some setting) → Any (Names p) vm.disk_settings)
        → ((¬ Lists disk.href (some setting))
            → Ensures (On (Holding B disk r vm)) next (λ _. On (IsLoose B disk)) (On IsGuarded))
        → Ensures
            (On (Holding B disk r vm))
            (elim o [
              | none ↦ next
              | some d ↦
                  if d.href == disk.href
                  then (do
                    task ← call ((traced cloud).detach_disk vm (release d setting))
                    call ((traced cloud).wait_task_completion task))
                  else next
            ])
            (λ _. On (IsLoose B disk))
            (On IsGuarded)
    setting-Ensures setting none next e named go_on = go_on (λ l. cc (e, l.1))
    setting-Ensures setting (some d) next e named go_on =
        Ensures-if (d.href == disk.href) _ next
          (λ q.
            Ensures-bind _
              (detach_call-Ensures (release d setting) ((eq_iff d.href disk.href).0 q)
                (named (release d setting) (e, refl, refl)))
              λ task.
                wait-Ensures (release d setting) task ((eq_iff d.href disk.href).0 q)
                  (named (release d setting) (e, refl, refl)))
          (λ q. go_on (λ l. other d l e q))
      where
        other :
            (d : Reference)
            → Lists disk.href (some setting)
            → setting.disk ≡ some d
            → (d.href == disk.href) ≡ false
            → ⊥
        other d (x, f, g) e q = ground (arith, eq_iff d.href disk.href)

    detach_setting-Ensures :
        (settings : List (Option DiskSettings))
        → ((P : Option DiskSettings → Type 0) → Any P settings → Any P vm.disk_settings)
        → (Any (Lists disk.href) vm.disk_settings → Any (Lists disk.href) settings)
        → Ensures
            (On (Holding B disk r vm))
            (detach_setting (traced cloud) disk vm settings)
            (λ _. On (IsLoose B disk))
            (On IsGuarded)
    unfolding detach_setting
    detach_setting-Ensures [] into back =
        Ensures-pure tt (λ s p. (p.0, unlisted-IsLoose s.cloud.events (λ a. Any-nil (back a)) p.1))
    detach_setting-Ensures (none ∷ settings) into back =
        Ensures-panic (λ s p. (p.0, Holding-IsGuarded g disk r vm s.cloud.events p.1))
    detach_setting-Ensures (some setting ∷ settings) into back =
        setting-Ensures setting setting.disk _ refl (λ p n. into (Names p) (first n))
          λ unlisted.
            detach_setting-Ensures settings (λ P a. into P (later a))
              λ a. elim (Any-cons (back a)) [ inl l ↦ absurd (unlisted l) | inr b ↦ b ]

  detach_from_vm-Ensures :
      (client : Handle) (disk : Disk) (o : Option Reference)
      → Ensures
          (On (Told B disk o))
          (detach_from_vm (traced cloud) client disk o)
          (λ _. On (IsLoose B disk))
          (On IsGuarded)
  unfolding detach_from_vm
  detach_from_vm-Ensures client disk none =
      Ensures-pure tt (λ s p. (p.0, (unheld p.1, Told-IsGuarded g disk none s.cloud.events p.1)))
  detach_from_vm-Ensures client disk (some r) =
      Ensures-bind _
        (Ensures-after _ _ _ _ (λ a s p. p)
          (λ s p. (p.0, Told-IsGuarded g disk (some r) s.cloud.events p.1))
          (get_vm_by_name-Ensures cloud (Told B disk (some r)) (Holding B disk r)
            (λ t vm h. (t, refl, h)) client r.name))
        λ vm. detach_setting-Ensures disk r vm vm.disk_settings (λ P a. a) (λ a. a)

  -- Asking whether a machine holds the disk.
  pub attached_vm-Ensures :
      (disk : Disk)
      → Ensures
          (On B)
          (call ((traced cloud).attached_vm disk))
          (λ o. On (Told B disk o))
          (On IsGuarded)
  attached_vm-Ensures disk =
      noted-Ensures (Told B disk) IsGuarded (asked disk) _ (λ t o h. (t, refl, h))
        (λ t e h. (tt, g t h))

-- The disk found under a name in a data centre is on no machine any more, whichever it is.
abbrev pub Loosened : (List Event → Type 0) → Handle → String → List Event → Type 0
Loosened B client name t = (d : Disk) × IsLoose (Single B client name d) d t

pub Single-IsGuarded :
    {B : List Event → Type 0} (g : (t : List Event) → B t → IsGuarded t) (client : Handle)
    (name : String) (d : Disk) (t : List Event)
    → Single B client name d t
    → IsGuarded t
Single-IsGuarded g client name d t (rest, e, b) = subst IsGuarded (sym e) (tt, g rest b)

module _ {W : Type 0} (cloud : Cloud W) where
  pub detach_disk-Ensures :
      (B : List Event → Type 0) (g : (t : List Event) → B t → IsGuarded t) (client : Handle)
      (name : String)
      → Ensures
          (On B)
          (detach_disk (traced cloud) client name)
          (λ _. On (Loosened B client name))
          (On IsGuarded)
  unfolding detach_disk
  detach_disk-Ensures B g client name =
      Ensures-bind _ (get_disk_by_name-Ensures cloud B client name g) λ disk.
        let g' = Single-IsGuarded g client name disk in
        Ensures-bind _ (attached_vm-Ensures cloud _ g' disk) λ o.
          Ensures-after _ _ _ _ (λ a s p. (p.0, (disk, p.1))) (λ s p. p)
            (detach_from_vm-Ensures cloud _ g' client disk o)

  pub detach_disk-Runs :
      (client : Handle) (name : String)
      → Runs (On IsGuarded) (detach_disk (traced cloud) client name)
  detach_disk-Runs client name = Runs-Ensures (
      Ensures-after _ _ _ _ (λ a s p. (p.0, p.1.1.1)) (λ s p. p)
        (detach_disk-Ensures IsGuarded (λ t h. h) client name))

  pub attached_vm-Runs :
      (disk : Disk) → Runs (On IsGuarded) (call ((traced cloud).attached_vm disk))
  attached_vm-Runs disk = Runs-Ensures (
      Ensures-after _ _ _ _ (λ o s p. (p.0, Told-IsGuarded (λ t h. h) disk o s.cloud.events p.1))
        (λ s p. p) (attached_vm-Ensures cloud IsGuarded (λ t h. h) disk))
