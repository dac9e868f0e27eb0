-- ===== src/Vcd/Units/Laws.antt =====
-- The answers of `getFreeUnitNum` of pkg/vcd-client/client.go, whatever the order in which the runtime
-- ranges over the units.
use mathlib.Core.List.{Permᴰ}
use vcd_csi.Prelude.{
  ℕ, zero, suc, ◌+◌, ◌≤◌, ◌<◌, ◌≡◌, ◌≢◌, ◌⊎◌, inl, inr, refl, ap, [], ◌∷◌, true, false, Option,
  none, some, arith, All, Any, first, later, Any-nil, Any-cons, Any-Permᴰ, All-Permᴰ,
}
use mathlib.Core.Path.{subst}
use native.Mathlib.Decide.{dec_lt}
use vcd_csi.Go.Int.{ℤ, pos}
use vcd_csi.Go.Error.{Error, no_free_units}
use vcd_csi.Cloud.{Vm}
use vcd_csi.Vcd.Units.{Units, units_from, build_disk_units, pick_unit, get_free_unit_num}
use vcd_csi.Vcd.Units.Marks.{
  Uses, IsReserved, Entry, Distinct, Has, mark_units-Entry, mark_units-Has,
}

-- `range` over a map visits each entry once.
abbrev pub IsOrder : (Units → Units) → Type 0
IsOrder visit = (units : Units) → Permᴰ units (visit units)

-- Every unit of the driver is in use on the controller.
abbrev pub IsFull : Vm → ℤ → Type 0
IsFull vm bus = (n : ℕ) → 8 ≤ n → n < 16 → Any (Uses bus (pos n)) vm.disk_settings

-- What the search for a unit may answer.
abbrev pub Picked : Vm → ℤ → ℤ × Option Error → Type 0
Picked vm bus (u, none) = IsReserved u × (¬ Any (Uses bus u) vm.disk_settings)
Picked vm bus (u, some e) = (u ≡ pos 0) × (e ≡ no_free_units) × IsFull vm bus

abbrev Unused : ℤ → Type 0
Unused u = ⊥

units_from-Entry :
    (i rounds : ℕ) → 8 ≤ i → i + rounds ≤ 16 → All (Entry Unused) (units_from i rounds)
unfolding units_from
units_from-Entry i zero h k = tt
units_from-Entry i (suc rounds) h k = (
  ((i, refl, h, omega arith), λ x. x),
  units_from-Entry (i + 1) rounds (omega arith) (omega arith),
)

units_from-All_ne : (i j rounds : ℕ) → i < j → All (λ e. e.0 ≢ pos i) (units_from j rounds)
unfolding units_from
units_from-All_ne i j zero h = tt
units_from-All_ne i j (suc rounds) h =
    (λ p. ground arith, units_from-All_ne i (j + 1) rounds (omega arith))

units_from-Distinct : (i rounds : ℕ) → Distinct (units_from i rounds)
unfolding units_from
units_from-Distinct i zero = tt
units_from-Distinct i (suc rounds) =
    (units_from-All_ne i (i + 1) rounds (omega arith), units_from-Distinct (i + 1) rounds)

units_from-Has : (i rounds n : ℕ) → i ≤ n → n < i + rounds → Has (pos n) (units_from i rounds)
unfolding units_from
units_from-Has i zero n h k = absurd (omega arith)
units_from-Has i (suc rounds) n h k = elim (dec_lt i n) [
  | yes p ↦ later (units_from-Has (i + 1) rounds n (omega arith) (omega arith))
  | no p ↦ first (ap pos (omega arith))
]

module _ (vm : Vm) (bus : ℤ) where
  pick_unit-Picked :
      (units : Units)
      → All (Entry (λ u. Unused u ⊎ Any (Uses bus u) vm.disk_settings)) units
      → ((n : ℕ) → 8 ≤ n → n < 16 → Any (Uses bus (pos n)) vm.disk_settings ⊎ Has (pos n) units)
      → Picked vm bus (pick_unit units)
  unfolding pick_unit
  pick_unit-Picked [] _ full =
      (refl, refl, λ n h k. elim (full n h k) [ inl a ↦ a | inr a ↦ absurd (Any-nil a) ])
  pick_unit-Picked ((u, true) ∷ units) (h, hs) full = pick_unit-Picked units hs λ n l k.
      elim (full n l k) [
        | inl a ↦ inl a
        | inr a ↦ elim (Any-cons a) [
          | inl e ↦ inl (subst (λ v. Any (Uses bus v) vm.disk_settings) e (in_use u h))
          | inr b ↦ inr b
        ]
      ]
    where
      in_use :
          (v : ℤ) → Unused v ⊎ Any (Uses bus v) vm.disk_settings → Any (Uses bus v) vm.disk_settings
      in_use v x = elim x [ inl n ↦ absurd n | inr a ↦ a ]
  pick_unit-Picked ((u, false) ∷ units) (h, hs) full = (h.0, λ a. h.1 (inr a))

-- For any machine, controller and order of the map, a unit that is picked without an error is
-- between 8 and 15 and no disk of the machine uses it on the controller; an error is returned only
-- if all of these units are in use there, with unit 0.
pub get_free_unit_num-Picked :
    (visit : Units → Units) (vm : Vm) (bus : ℤ)
    → IsOrder visit
    → Picked vm bus (get_free_unit_num visit vm bus)
unfolding get_free_unit_num build_disk_units
get_free_unit_num-Picked visit vm bus order =
    pick_unit-Picked vm bus _
      (All-Permᴰ _ (order _) (
        mark_units-Entry bus vm.disk_settings Unused build_disk_units (units_from-Distinct 8 8)
          (units_from-Entry 8 8 (omega arith) (omega arith))))
      λ n h k. inr (
        Any-Permᴰ (order _)
          (mark_units-Has (pos n) bus vm.disk_settings build_disk_units (units_from-Has 8 8 n h k)))
