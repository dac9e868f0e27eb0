-- ===== src/Vcd/Guard/Calls.antt =====
-- Calls of the wrapped cloud, the lookups and the authentication.
use vcd_csi.Prelude.{String, List, [], ◌∷◌, ◌≡◌, Bool, true, false, refl, sym, ◌==◌, if◌then◌else◌}
use mathlib.Core.Path.{subst}
use vcd_csi.Go.Error.{Error, is_entity_not_found}
use vcd_csi.Go.Exec.{Result, ok, err, returned, Exec, pure, raise, attempt, ◌>>=◌}
use vcd_csi.Go.Exec.Runs.{Runs, runs_rules, Runs-bind, Runs-gets}
use vcd_csi.Go.Exec.Ensures.{
  Ensures, Post, Answer, Ensures-pure, Ensures-raise, Ensures-if, Ensures-attempt, Ensures-Runs,
  Ensures-bind, Ensures-after, Runs-Ensures,
}
use vcd_csi.Config.{ControllerConfig}
use vcd_csi.Cloud.{Cloud, Handle, ResourceEntity, Disk, Vm}
use vcd_csi.Vcd.State.{VcdClient, call, set_client, add_clients, build_clients, refresh_auth}
use vcd_csi.Vcd.Find.{
  entities, find_vm, get_vm_by_name, exactly_one, get_disk_by_name, disks_exists,
}
use vcd_csi.Vcd.Trace.{
  Event, fetched, listed, waited, Traced, silent, noted, found, noted_ok, traced,
}
use vcd_csi.Vcd.Guard.{On, IsGuarded, Single}

module _ {W A : Type 0} where
  pub silent-Runs : (R : List Event → Type 0) (f : W → Result A × W) → Runs (On R) (call (silent f))
  unfolding call
  silent-Runs R f = record { keeps = λ s h. h; ends = λ s h e. cc }

-- The same, where the code inspects the error.
pub noted-attempt-Ensures :
    {W A : Type 0} {R : List Event → Type 0} (Q : Result A → List Event → Type 0)
    (I : VcdClient (Traced W) → Type 0) (event : Result A → Event) (f : W → Result A × W)
    → ((t : List Event) (r : Result A) → R t → Q r (event r ∷ t))
    → Ensures (On R) (attempt (call (noted event f))) (λ r. On (Q r)) I
unfolding ◌>>=◌ call
noted-attempt-Ensures Q I event f h = record { at = λ s p. (p.0, h _ _ p.1) }

module _ {A : Type 0} (Q : A → List Event → Type 0) (E : List Event → Type 0) where
  module _ {W : Type 0} (event : Result A → Event) (t : List Event) where
    noted-Post :
        (r : Result A) (s : VcdClient (Traced W))
        → s.locked ≡ true
        → s.cloud.events ≡ event r ∷ t
        → ((a : A) → Q a (event (ok a) ∷ t))
        → ((e : Error) → E (event (err e) ∷ t))
        → Post (λ a. On (Q a)) (On E) (returned r) s
    noted-Post (ok a) s l q h k = (l, subst (Q a) (sym q) (h a))
    noted-Post (err e) s l q h k = (l, subst E (sym q) (k e))

  -- A call that leaves an event with its answer.
  pub noted-Ensures :
      {W : Type 0} {R : List Event → Type 0} (event : Result A → Event) (f : W → Result A × W)
      → ((t : List Event) (a : A) → R t → Q a (event (ok a) ∷ t))
      → ((t : List Event) (e : Error) → R t → E (event (err e) ∷ t))
      → Ensures (On R) (call (noted event f)) (λ a. On (Q a)) (On E)
  unfolding call
  noted-Ensures event f h k = record {
    at = λ s p.
        noted-Post event s.cloud.events (f s.cloud.world).0 _ p.0 refl (λ a. h _ a p.1)
          (λ e. k _ e p.1);
  }

  module _ {W : Type 0} (event : A → Event) (t : List Event) where
    noted_ok-Post :
        (r : Result A) (s : VcdClient (Traced W))
        → s.locked ≡ true
        → s.cloud.events ≡ found event r t
        → ((a : A) → Q a (event a ∷ t))
        → E t
        → Post (λ a. On (Q a)) (On E) (returned r) s
    noted_ok-Post (ok a) s l q h k = (l, subst (Q a) (sym q) (h a))
    noted_ok-Post (err e) s l q h k = (l, subst E (sym q) k)

  -- A lookup that leaves an event if it finds something.
  pub noted_ok-Ensures :
      {W : Type 0} (event : A → Event) (f : W → Result A × W)
      → ((t : List Event) (a : A) → E t → Q a (event a ∷ t))
      → Ensures (On E) (call (noted_ok event f)) (λ a. On (Q a)) (On E)
  unfolding call
  noted_ok-Ensures event f h = record {
    at = λ s p.
        noted_ok-Post event s.cloud.events (f s.cloud.world).0 _ p.0 refl (λ a. h _ a p.1) p.1;
  }

module _ {W : Type 0} (cloud : Cloud W) (c : ControllerConfig) (R : List Event → Type 0) where
  set_client-Runs :
      (name : String) (vdc : Handle) → Runs (On {W = W} R) (set_client (traced cloud) c name vdc)
  unfolding set_client ◌>>=◌
  set_client-Runs name vdc = record { keeps = λ s h. h; ends = λ s h e. cc }

  add_clients-Runs :
      (org : Handle) (names : List String) → Runs (On R) (add_clients (traced cloud) c org names)
  unfolding add_clients
  add_clients-Runs org [] = search runs_rules
  add_clients-Runs org (name ∷ names) =
      Runs-bind _ _ (silent-Runs R _)
        (λ vdc. Runs-bind _ _ (set_client-Runs name vdc) (λ _. add_clients-Runs org names))

  pub refresh_auth-Runs : Runs (On R) (refresh_auth (traced cloud) c)
  unfolding refresh_auth build_clients
  refresh_auth-Runs = search (runs_rules, silent-Runs, add_clients-Runs) depth 8

module _ {W : Type 0} (cloud : Cloud W) where
  module _ (E : List Event → Type 0) (Q : Vm → List Event → Type 0) where
    found_vm-Ensures :
        (found : Result Vm) (next : Exec (VcdClient (Traced W)) Vm)
        → Ensures (On E) next (λ vm. On (Q vm)) (On E)
        → Ensures
            (Answer (λ vm. On {W = W} (Q vm)) (On E) found)
            (elim found [
              | ok vm ↦ pure vm
              | err e ↦ if is_entity_not_found e then next else raise e
            ])
            (λ vm. On (Q vm))
            (On E)
    found_vm-Ensures (ok vm) next h = Ensures-pure vm (λ s p. p)
    found_vm-Ensures (err e) next h =
        Ensures-if (is_entity_not_found e) next (raise e) (λ _. h) (λ _. Ensures-raise e (λ s p. p))

    module _ (step : (t : List Event) (vm : Vm) → E t → Q vm (fetched vm ∷ t)) where
      find_vm-Ensures :
          (client : Handle) (vm : String) (objs : List ResourceEntity)
          → Ensures (On E) (find_vm (traced cloud) client vm objs) (λ v. On (Q v)) (On E)
      unfolding find_vm
      find_vm-Ensures client vm [] = Ensures-raise _ (λ s p. p)
      find_vm-Ensures client vm (obj ∷ objs) =
          let next = find_vm-Ensures client vm objs in
          Ensures-if (obj.mime == cloud.mime_vapp) _ _
            (λ _. Ensures-bind _ (Ensures-Runs (silent-Runs E _)) λ vapp.
              Ensures-bind _ (Ensures-attempt _ _ (noted_ok-Ensures Q E fetched _ step))
                λ found. found_vm-Ensures found _ next)
            (λ _. next)

      -- A machine that is found is noted; otherwise nothing is.
      pub get_vm_by_name-Ensures :
          (client : Handle) (vm : String)
          → Ensures (On E) (get_vm_by_name (traced cloud) client vm) (λ v. On (Q v)) (On E)
      unfolding get_vm_by_name entities
      get_vm_by_name-Ensures client vm =
          Ensures-bind _ (Ensures-Runs (Runs-gets _)) (find_vm-Ensures client vm)

  exactly_one-Ensures :
      (R : List Event → Type 0) (client : Handle) (name : String) (disks : List Disk)
      → ((t : List Event) → R t → IsGuarded t)
      → Ensures
          (On (λ t. (rest : List Event) × (t ≡ listed client name (ok disks) ∷ rest) × R rest))
          (exactly_one (traced cloud) disks)
          (λ d. On (Single R client name d))
          (On IsGuarded)
  unfolding exactly_one
  exactly_one-Ensures R client name disks h = one disks
    where
      guarded :
          (ds : List Disk) (t : List Event)
          → ((rest : List Event) × (t ≡ listed client name (ok ds) ∷ rest) × R rest)
          → IsGuarded t
      guarded ds t (rest, e, r) = subst IsGuarded (sym e) (tt, h rest r)

      one :
          (ds : List Disk)
          → Ensures
              (On (λ t. (rest : List Event) × (t ≡ listed client name (ok ds) ∷ rest) × R rest))
              (exactly_one (traced cloud) ds)
              (λ d. On (Single R client name d))
              (On IsGuarded)
      one [] = Ensures-raise _ (λ s p. (p.0, guarded [] _ p.1))
      one (d ∷ []) = Ensures-pure d (λ s p. p)
      one (d ∷ e ∷ ds) = Ensures-raise _ (λ s p. (p.0, guarded (d ∷ e ∷ ds) _ p.1))

  -- The disk that is found is the only one of its name.
  pub get_disk_by_name-Ensures :
      (R : List Event → Type 0) (client : Handle) (name : String)
      → ((t : List Event) → R t → IsGuarded t)
      → Ensures
          (On R)
          (get_disk_by_name (traced cloud) client name)
          (λ d. On (Single R client name d))
          (On IsGuarded)
  unfolding get_disk_by_name
  get_disk_by_name-Ensures R client name h =
      Ensures-bind _
        (noted-Ensures
          (λ ds t. (rest : List Event) × (t ≡ listed client name (ok ds) ∷ rest) × R rest) IsGuarded
          (listed client name) _ (λ t a r. (t, refl, r)) (λ t e r. (tt, h t r)))
        (λ ds. exactly_one-Ensures R client name ds h)

  pub get_disk_by_name-Runs :
      (client : Handle) (name : String)
      → Runs (On IsGuarded) (get_disk_by_name (traced cloud) client name)
  get_disk_by_name-Runs client name = Runs-Ensures (
      Ensures-after _ _ _ _ (λ d s p. (p.0, subst IsGuarded (sym p.1.1) (tt, p.1.2))) (λ s p. p)
        (get_disk_by_name-Ensures IsGuarded client name (λ t h. h)))

  -- Waiting for a task, whatever comes of it.
  pub wait-Runs :
      (task : Handle) → Runs (On IsGuarded) (call ((traced cloud).wait_task_completion task))
  wait-Runs task =
      Runs-Ensures (noted-Ensures _ _ (waited task) _ (λ t a h. (tt, h)) (λ t e h. (tt, h)))

  -- The last event is a listing that failed with `e`.
  abbrev Missing : Handle → String → Error → List Event → Type 0
  Missing client name e t = (rest : List Event) × (t ≡ listed client name (err e) ∷ rest)

  abbrev Found : Handle → String → Result (List Disk) → List Event → Type 0
  Found client name (ok ds) t = IsGuarded t
  Found client name (err e) t = Missing client name e t × IsGuarded t

  -- The last event is a listing in which the disk was not found.
  abbrev pub Absent : Handle → String → List Event → Type 0
  Absent client name t = (e : Error) × (is_entity_not_found e ≡ true) × Missing client name e t

  abbrev pub ExistsOr : Handle → String → Bool → List Event → Type 0
  ExistsOr client name true t = IsGuarded t
  ExistsOr client name false t = Absent client name t × IsGuarded t

  pub disks_exists-Ensures :
      (client : Handle) (name : String)
      → Ensures
          (On IsGuarded)
          (disks_exists (traced cloud) client name)
          (λ b. On (ExistsOr client name b))
          (On IsGuarded)
  unfolding disks_exists
  disks_exists-Ensures client name =
      Ensures-bind _
        (noted-attempt-Ensures (Found client name) (On IsGuarded) (listed client name) _
          (λ t r h. Found-listed r t h))
        λ r. answer r
    where
      Found-listed :
          (r : Result (List Disk)) (t : List Event)
          → IsGuarded t
          → Found client name r (listed client name r ∷ t)
      Found-listed (ok ds) t h = (tt, h)
      Found-listed (err e) t h = ((t, refl), (tt, h))

      answer :
          (r : Result (List Disk))
          → Ensures
              (On {W = W} (Found client name r))
              (elim r [
                | ok _ ↦ pure true
                | err e ↦ if is_entity_not_found e then pure false else raise e
              ])
              (λ b. On (ExistsOr client name b))
              (On IsGuarded)
      answer (ok ds) = Ensures-pure true (λ s p. p)
      answer (err e) =
          Ensures-if (is_entity_not_found e) _ _
            (λ q. Ensures-pure false (λ s p. (p.0, ((e, q, p.1.0), p.1.1))))
            (λ q. Ensures-raise e (λ s p. (p.0, p.1.1)))
