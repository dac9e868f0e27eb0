-- ===== src/Driver/Create/Laws.antt =====
-- Which requests create a volume, and what they answer.
use vcd_csi.Prelude.{String, [], ◌∷◌, true, false, none, some, ◌≡◌, ◌≢◌, ◌⊎◌, arith, eq_iff}
use vcd_csi.Prelude.Dict.{lookup}
use vcd_csi.Go.Exec.{Result, ok, err, Outcome, returned, panicked, blocked, ◌>>=◌, zoom}
use vcd_csi.Go.Error.{is_disk_already_exists}
use vcd_csi.StorageSize.{StorageSize, bytes}
use vcd_csi.Csi.{CreateVolumeRequest, Volume}
use vcd_csi.Driver.State.{VcdService, State, on_vcl, reject}
use vcd_csi.Driver.Capacity.{extract_storage}
use vcd_csi.Driver.Capabilities.{StringSets, validate_capabilities}
use vcd_csi.Driver.Create.{
  vcd_param, storage_profile_param, is_empty, parameter, requested_size, created_volume,
  create_volume,
}

-- A request that reaches the client: the data centre, the profile and the size it asks for.
abbrev pub Asks :
    {Set : Type 0} → StringSets Set → CreateVolumeRequest → String → String → StorageSize → Type 0
Asks sets req vcd profile size =
    (req.name ≢ "")
    × (is_empty req.volume_capabilities ≡ false)
    × (is_empty (validate_capabilities sets req.volume_capabilities) ≡ true)
    × (lookup vcd_param req.parameters ≡ some vcd)
    × (lookup storage_profile_param req.parameters ≡ some profile)
    × (extract_storage req.capacity_range ≡ ok size)

abbrev Failed : Result StorageSize → Type 0
Failed (ok size) = ⊥
Failed (err e) = Unit

-- A request that lacks something, or asks for what the driver does not support.
abbrev pub IsRejected : {Set : Type 0} → StringSets Set → CreateVolumeRequest → Type 0
IsRejected sets req =
    (req.name ≡ "")
    ⊎ (is_empty req.volume_capabilities ≡ true)
    ⊎ (is_empty (validate_capabilities sets req.volume_capabilities) ≡ false)
    ⊎ (lookup vcd_param req.parameters ≡ none)
    ⊎ (lookup storage_profile_param req.parameters ≡ none)
    ⊎ Failed (extract_storage req.capacity_range)

abbrev pub IsError : Outcome Volume → Type 0
IsError (returned (ok volume)) = ⊥
IsError (returned (err e)) = Unit
IsError panicked = ⊥
IsError blocked = ⊥

-- What the client's end means for the caller: a disk that is made, or that is there already, is
-- the volume; anything else is passed on.
abbrev pub Answered : Volume → Outcome (Unit {0}) → Outcome Volume → Type 0
Answered volume (returned (ok _)) o = o ≡ returned (ok volume)
Answered volume (returned (err e)) o =
    ((is_disk_already_exists e ≡ true) × (o ≡ returned (ok volume)))
    ⊎ ((is_disk_already_exists e ≡ false) × (o ≡ returned (err e)))
Answered volume panicked o = o ≡ panicked
Answered volume blocked o = o ≡ blocked

module _ {S M Set : Type 0} (vcl : VcdService S) (sets : StringSets Set)
    (req : CreateVolumeRequest) where
  -- A request that has a name, supported capabilities, both parameters and an accepted range makes
  -- the client, once, create the disk of that name and size in that data centre. If the client
  -- succeeds, or finds the disk there already, the answer is the volume of that name with the
  -- extracted size and the data centre as its zone; any other end of the client is passed on.
  pub create_volume-Asks :
      (vcd profile : String) (size : StorageSize) (s : State S M)
      → Asks sets req vcd profile size
      → let made = vcl.create_disk vcd req.name profile size s.vcl in
        let answer = create_volume vcl sets req s in
        Answered
          (record {
            volume_id = req.name;
            capacity_bytes = bytes size;
            accessible_topology = (("failure-domain.beta.kubernetes.io/zone", vcd) ∷ []) ∷ [];
          })
          made.0
          answer.0
        × (answer.1 ≡ record s { vcl = made.1 })
  unfolding create_volume reject parameter requested_size created_volume on_vcl zoom ◌>>=◌
  create_volume-Asks vcd profile size s h = ground (arith, eq_iff req.name "")

  -- A request without a name, without capabilities, with an unsupported capability, without one of
  -- the parameters, or with a range that is not accepted is answered by an error and changes
  -- nothing.
  pub create_volume-IsRejected :
      (s : State S M)
      → IsRejected sets req
      → IsError (create_volume vcl sets req s).0 × ((create_volume vcl sets req s).1 ≡ s)
  unfolding create_volume reject parameter requested_size on_vcl zoom ◌>>=◌
  create_volume-IsRejected s h = ground (arith, eq_iff req.name "")
