-- ===== src/Vcd/Service/Laws.antt =====
-- A deletion that finds nothing, and what a listing names.
use vcd_csi.Prelude.{
  String, List, [], ◌∷◌, ◌++◌, map, true, ◌≡◌, sym, refl, arith, ◌==◌, keep, Bool-cases, inl, inr,
}
use mathlib.Core.Path.{subst}
use mathlib.Core.List.{map-append, append-nil, append_assoc}
use vcd_csi.Prelude.Dict.{Dict}
use vcd_csi.Go.Exec.{Result, ok, err, Outcome, returned, panicked, blocked, Exec, continue, ◌>>=◌}
use vcd_csi.StorageSize.{new_storage_size_from_mb}
use vcd_csi.Config.{ControllerConfig}
use vcd_csi.Cloud.{Cloud, Handle, ResourceEntity}
use vcd_csi.Vcd.State.{VcdClient, call}
use vcd_csi.Vcd.Find.{get_disk_by_name}
use vcd_csi.Vcd.Service.{VolumeWithCap, delete_from, list_entities}

-- The answer is an error.
abbrev pub Fails : {A W : Type 0} → Result A × W → Type 0
Fails (ok a, w) = ⊥
Fails (err e, w) = Unit

module _ {W : Type 0} (cloud : Cloud W) (c : ControllerConfig) where
  -- If every refresh succeeds and every lookup of a disk by its name fails, whatever the error,
  -- the loop of the deletion succeeds.
  pub delete_from-Fails :
      (name : String) (clients : Dict Handle) (s : VcdClient W)
      → ((h : Handle) (w : W) → (cloud.refresh h w).0 ≡ ok tt)
      → ((h : Handle) (w : W) → Fails (cloud.get_disks_by_name h name true w))
      → (delete_from cloud c name clients s).0 ≡ returned (ok tt)
  unfolding delete_from get_disk_by_name call ◌>>=◌
  delete_from-Fails name [] s hr hf = refl
  delete_from-Fails name ((n, h) ∷ clients) s hr hf =
      let w = (cloud.refresh h s.cloud).1 in
      let w' = (cloud.get_disks_by_name h name true w).1 in
      ground (
        arith,
        hr h s.cloud,
        hf h w,
        delete_from-Fails name clients (record s { cloud = w' }) hr hf,
      )

  -- A value that a listing returns names the disks of the data centre.
  abbrev pub Names : List String → Outcome (List VolumeWithCap) → Type 0
  Names names (returned (ok volumes)) = map (λ v. v.name) volumes ≡ names
  Names names (returned (err e)) = Unit
  Names names panicked = Unit
  Names names blocked = Unit

  -- The disks among the entities of a data centre.
  abbrev pub disk_names : List ResourceEntity → List String
  disk_names objs = map (λ o. o.name) (keep (λ o. o.mime == cloud.mime_disk) objs)

  Names-call :
      {A : Type 0} (names : List String) (f : W → Result A × W)
      (k : A → Exec (VcdClient W) (List VolumeWithCap)) (s : VcdClient W)
      → ((a : A) (t : VcdClient W) → Names names (k a t).0)
      → Names names ((call f >>= k) s).0
  unfolding call ◌>>=◌
  Names-call {A = A} names f k s h = go (f s.cloud)
    where
      go : (r : Result A × W) → Names names (continue (returned r.0) k (record s { cloud = r.1 })).0
      go (ok a, w) = h a (record s { cloud = w })
      go (err e, w) = tt

  names_append :
      (resp : List VolumeWithCap) (volume : VolumeWithCap) (names : List String)
      → map (λ v. v.name) (resp ++ volume ∷ []) ++ names
        ≡ map (λ v. v.name) resp ++ volume.name ∷ names
  names_append resp volume names =
      rw (map-append (λ v. v.name) resp (volume ∷ []))
        (append_assoc (map (λ v. v.name) resp) (volume.name ∷ []) names)

  -- If the loop over the entities of a data centre returns, the names in the listing are those it
  -- began with and then those of the entities that are disks, in their order.
  pub list_entities-Names :
      (vdc_name : String) (vcd : Handle) (objs : List ResourceEntity) (resp : List VolumeWithCap)
      (s : VcdClient W)
      → Names
          (map (λ v. v.name) resp ++ disk_names objs)
          (list_entities cloud c vdc_name vcd objs resp s).0
  unfolding list_entities ◌>>=◌
  list_entities-Names vdc_name vcd [] resp s = sym (append-nil (map (λ v. v.name) resp))
  list_entities-Names vdc_name vcd (o ∷ objs) resp s =
      elim (Bool-cases (o.mime == cloud.mime_disk)) [
        | inl e ↦ rw e (
            Names-call _ _ _ s λ d t.
              let volume : VolumeWithCap = record {
                name = o.name;
                cap = new_storage_size_from_mb d.size_mb;
                vdc_name = vdc_name;
              } in
              subst
                (λ names.
                  Names names (list_entities cloud c vdc_name vcd objs (resp ++ volume ∷ []) t).0)
                (names_append resp volume (disk_names objs))
                (list_entities-Names vdc_name vcd objs (resp ++ volume ∷ []) t))
        | inr e ↦ rw e (list_entities-Names vdc_name vcd objs resp s)
      ]
