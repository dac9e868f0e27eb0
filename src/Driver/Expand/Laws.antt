-- ===== src/Driver/Expand/Laws.antt =====
-- What an expansion answers, and what it leaves behind for the next publish.
use vcd_csi.Prelude.{
  String, List, [], ◌∷◌, true, false, none, some, ◌≡◌, ◌≢◌, ◌↔◌, ◌⊎◌, inl, inr, refl, All,
  Bool-cases, ◌==◌, ◌∙◌, arith, eq_iff, eq_refl,
}
use mathlib.Core.Path.{subst}
use vcd_csi.Go.Int.{ℤ, leb_ℤ, ◌≤ℤ◌}
use vcd_csi.Go.Error.{status, new, internal, disk_attached_to_vm}
use vcd_csi.Go.Exec.{Result, ok, err, Outcome, returned, panicked, blocked, ◌>>=◌, zoom}
use vcd_csi.StorageSize.{StorageSize, bytes}
use vcd_csi.Locker.Laws.{holds, holds_lem}
use vcd_csi.Vcd.Service.{VolumeWithCap}
use vcd_csi.Csi.{
  CapacityRange, ControllerExpandVolumeRequest, ControllerExpandVolumeResponse,
  ControllerPublishVolumeRequest,
}
use vcd_csi.Driver.State.{VcdService, State, on_vcl, reject}
use vcd_csi.Driver.Capacity.{extract_storage}
use vcd_csi.Driver.Publish.{is_nil, lock_put, lock_pop, controller_publish_volume}
use vcd_csi.Driver.Publish.Laws.{controller_publish_volume_locked}
use vcd_csi.Driver.Expand.{vdc_of, resize, new_size, find_volume, controller_expand_volume}

-- The size that was asked for, if any, fits.
abbrev pub Fits : ℤ → Result StorageSize → Type 0
Fits capacity (ok size) = bytes size ≤ℤ capacity
Fits capacity (err e) = ⊥

abbrev pub Expanded :
    ControllerExpandVolumeRequest → Outcome ControllerExpandVolumeResponse → Type 0
Expanded req (returned (ok response)) =
    Fits response.capacity_bytes (extract_storage req.capacity_range)
Expanded req (returned (err e)) = Unit
Expanded req panicked = Unit
Expanded req blocked = Unit

-- A volume that was found is not lost by the rest of the loop.
find_volume_keeps :
    (id : String) (volumes : List VolumeWithCap) (w : VolumeWithCap)
    → (volume : VolumeWithCap) × (find_volume id volumes (some w) ≡ some volume)
unfolding find_volume
find_volume_keeps id [] w = (w, refl)
find_volume_keeps id (volume ∷ volumes) w = elim (Bool-cases (volume.name == id)) [
  | inl e ↦ rw e (find_volume_keeps id volumes volume)
  | inr e ↦ rw e (find_volume_keeps id volumes w)
]

-- The loop finds nothing exactly if no volume has the name.
find_volume-cases :
    (id : String) (volumes : List VolumeWithCap)
    → (All (λ volume. volume.name ≢ id) volumes × (find_volume id volumes none ≡ none))
      ⊎ ((volume : VolumeWithCap) × (¬ All (λ v. v.name ≢ id) volumes)
          × (find_volume id volumes none ≡ some volume))
unfolding find_volume
find_volume-cases id [] = inl (tt, refl)
find_volume-cases id (volume ∷ volumes) = elim (Bool-cases (volume.name == id)) [
  | inl e ↦
      let kept = find_volume_keeps id volumes volume in
      inr (kept.0, λ a. a.0 ((eq_iff volume.name id).0 e), rw e kept.1)
  | inr e ↦ elim (find_volume-cases id volumes) [
    | inl (all, f) ↦ inl ((λ n. ground (arith, eq_iff volume.name id), all), rw e f)
    | inr (found, some_named, f) ↦ inr (found, λ a. some_named a.1, rw e f)
  ]
]

module _ {S M : Type 0} (vcl : VcdService S) (req : ControllerExpandVolumeRequest) where
  -- If an expansion is answered by a capacity, the range asked for a size and the capacity is at
  -- least that size.
  pub controller_expand_volume-Expanded :
      (s : State S M) → Expanded req (controller_expand_volume vcl req s).0
  unfolding controller_expand_volume resize new_size reject lock_put lock_pop on_vcl zoom ◌>>=◌
  controller_expand_volume-Expanded s = ground arith

  -- An expansion to an accepted range over a listing that succeeds panics exactly if no volume of
  -- the listing has the given identifier, where a resize by the client does not panic.
  pub controller_expand_volume_unlisted :
      (range : CapacityRange) (size : StorageSize) (s : State S M) (volumes : List VolumeWithCap)
      (v : S)
      → req.capacity_range ≡ some range
      → req.volume_id ≢ ""
      → extract_storage (some range) ≡ ok size
      → vcl.list_volumes s.vcl ≡ (returned (ok volumes), v)
      → ((vcd : String) → (vcl.resize_disk vcd req.volume_id size v).0 ≢ panicked)
      → let answer = controller_expand_volume vcl req s in
        (answer.0 ≡ panicked) ↔ All (λ volume. volume.name ≢ req.volume_id) volumes
  unfolding controller_expand_volume resize new_size reject lock_put lock_pop on_vcl zoom ◌>>=◌
  controller_expand_volume_unlisted range size s volumes v hr hi hs hl calm =
      elim (find_volume-cases req.volume_id volumes) [
        | inl (none_named, hf) ↦ (λ _. none_named, λ _. ground (arith, eq_iff req.volume_id ""))
        | inr (volume, named, hf) ↦ (
          λ p. absurd (ground (arith, eq_iff req.volume_id "", calm (vdc_of (some volume)))),
          λ none_named. absurd (named none_named),
        )
      ]

  refused_expansion :
      (range : CapacityRange) (size : StorageSize) (s : State S M) (volumes : List VolumeWithCap)
      (volume : VolumeWithCap) (v w : S)
      → req.capacity_range ≡ some range
      → req.volume_id ≢ ""
      → extract_storage (some range) ≡ ok size
      → vcl.list_volumes s.vcl ≡ (returned (ok volumes), v)
      → find_volume req.volume_id volumes none ≡ some volume
      → leb_ℤ (bytes size) (bytes volume.cap) ≡ false
      → vcl.resize_disk volume.vdc_name req.volume_id size v
        ≡ (returned (err disk_attached_to_vm), w)
      → (holds req.volume_id (controller_expand_volume vcl req s).1.lock ≡ true)
        × ((controller_expand_volume vcl req s).1.vcl ≡ w)
  unfolding controller_expand_volume resize new_size reject lock_put on_vcl zoom ◌>>=◌
  refused_expansion range size s volumes volume v w hr hi hs hl hf hc hz = ground (
    arith,
    eq_iff req.volume_id "",
    eq_refl req.volume_id,
    holds_lem req.volume_id req.volume_id s.lock,
  )

  -- If the client refuses to resize a listed volume, whose size is below the one asked for,
  -- because a machine holds the disk, then the next complete publish of that volume fails with the
  -- message that a resize is required, leaves the client as the expansion left it, and takes the
  -- volume off the lock.
  pub controller_publish_volume-controller_expand_volume :
      (range : CapacityRange) (size : StorageSize) (s : State S M) (volumes : List VolumeWithCap)
      (volume : VolumeWithCap) (v w : S) (publish : ControllerPublishVolumeRequest)
      → req.capacity_range ≡ some range
      → req.volume_id ≢ ""
      → extract_storage (some range) ≡ ok size
      → vcl.list_volumes s.vcl ≡ (returned (ok volumes), v)
      → find_volume req.volume_id volumes none ≡ some volume
      → leb_ℤ (bytes size) (bytes volume.cap) ≡ false
      → vcl.resize_disk volume.vdc_name req.volume_id size v
        ≡ (returned (err disk_attached_to_vm), w)
      → publish.volume_id ≡ req.volume_id
      → publish.node_id ≢ ""
      → is_nil publish.volume_capability ≡ false
      → publish.readonly ≡ false
      → let after = controller_publish_volume vcl publish (controller_expand_volume vcl req s).1 in
        (after.0
          ≡ returned (err (status internal (new "Resize required for volume, not publishing"))))
        × (after.1.vcl ≡ w)
        × (holds req.volume_id after.1.lock ≡ false)
  controller_publish_volume-controller_expand_volume range size s volumes volume v w publish hr hi
        hs hl hf hc hz hp hn hk ho =
      let h = refused_expansion range size s volumes volume v w hr hi hs hl hf hc hz in
      let k =
        controller_publish_volume_locked vcl publish (controller_expand_volume vcl req s).1
          (rw hp hi) hn hk ho (rw hp h.0) in
      (
        k.0,
        k.1 ∙ h.1,
        subst
            (λ i.
              holds i
                (controller_publish_volume vcl publish
                  (controller_expand_volume vcl req s).1).1.lock
              ≡ false)
            hp k.2,
      )
