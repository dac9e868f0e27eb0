-- ===== src/Vcd/Units.antt =====
-- `buildDiskUnits` and `getFreeUnitNum` of pkg/vcd-client/client.go: the units 8 to 15 of a controller
-- are the driver's, and an attach asks for one of them.
pub mod Marks
pub mod Laws
use vcd_csi.Prelude.{
  ℕ, zero, suc, ◌+◌, List, [], ◌∷◌, Bool, true, false, Option, none, some, if◌then◌else◌,
}
use vcd_csi.Go.Int.{ℤ, pos, eq_ℤ}
use vcd_csi.Go.Error.{Error, no_free_units}
use vcd_csi.Cloud.{Vm, DiskSettings}

-- `map[int]bool`, one entry a unit
abbrev pub Units : Type 0
Units = List (ℤ × Bool)

-- `for i := 8; i < 16; i++`, by the rounds that are left
unfoldable pub units_from : ℕ → ℕ → Units
units_from i zero = []
units_from i (suc rounds) = (pos i, false) ∷ units_from (i + 1) rounds

unfoldable pub build_disk_units : Units
unfolding units_from
build_disk_units = units_from 8 8

-- `unitsInUse[u] = true`
unfoldable pub use_unit : ℤ → Units → Units
use_unit u [] = (u, true) ∷ []
use_unit u ((k, v) ∷ units) = if eq_ℤ k u then (k, true) ∷ units else (k, v) ∷ use_unit u units

-- The loop over the machine's disk settings.
unfoldable pub mark_units : ℤ → List (Option DiskSettings) → Units → Units
unfolding use_unit
mark_units bus [] units = units
mark_units bus (none ∷ settings) units = mark_units bus settings units
mark_units bus (some d ∷ settings) units =
    mark_units bus settings (if eq_ℤ d.bus_number bus then use_unit d.unit_number units else units)

-- The loop over the units: the first one that is not in use.
unfoldable pub pick_unit : Units → ℤ × Option Error
pick_unit [] = (pos 0, some no_free_units)
pick_unit ((k, v) ∷ units) = if v then pick_unit units else (k, none)

-- Go's `(int, error)`. A `range` over a map goes in an order that the runtime chooses: `visit`.
unfoldable pub get_free_unit_num : (Units → Units) → Vm → ℤ → ℤ × Option Error
unfolding build_disk_units mark_units pick_unit
get_free_unit_num visit vm bus =
    pick_unit (visit (mark_units bus vm.disk_settings build_disk_units))
