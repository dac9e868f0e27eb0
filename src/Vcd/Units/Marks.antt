-- ===== src/Vcd/Units/Marks.antt =====
-- The map of units in the loop of `getFreeUnitNum` of pkg/vcd-client/client.go.
use vcd_csi.Prelude.{
  ℕ, ◌≤◌, ◌<◌, ◌≡◌, ◌≢◌, ◌⊎◌, ◌↔◌, inl, inr, refl, sym, ◌∙◌, List, [], ◌∷◌, Bool, true, false,
  Option, none, some, Bool-cases, All, Any, first, later, Any-nil, Any-cons, Any-skip, Any-move,
}
use vcd_csi.Go.Int.{ℤ, pos, eq_ℤ, eq_ℤ→eq, eq_ℤ_refl}
use vcd_csi.Cloud.{DiskSettings}
use vcd_csi.Vcd.Units.{Units, use_unit, mark_units}

-- A setting of a disk on the controller `bus` at the unit `u`.
abbrev pub Uses : ℤ → ℤ → Option DiskSettings → Type 0
Uses bus u none = ⊥
Uses bus u (some d) = (d.bus_number ≡ bus) × (d.unit_number ≡ u)

-- One of the units that the driver keeps for itself.
abbrev pub IsReserved : ℤ → Type 0
IsReserved u = (n : ℕ) × (u ≡ pos n) × (8 ≤ n) × (n < 16)

-- An entry of the map, against the units `U` that are in use.
abbrev pub Entry : (ℤ → Type 0) → ℤ × Bool → Type 0
Entry U (k, true) = U k
Entry U (k, false) = IsReserved k × (¬ U k)

abbrev pub Distinct : Units → Type 0
Distinct [] = Unit
Distinct ((k, v) ∷ units) = All (λ e. e.0 ≢ k) units × Distinct units

module _ {U V : ℤ → Type 0} (same : (k : ℤ) → U k ↔ V k) where
  Entry-iff : (units : Units) → All (Entry U) units → All (Entry V) units
  Entry-iff [] _ = tt
  Entry-iff ((k, true) ∷ units) (h, hs) = ((same k).0 h, Entry-iff units hs)
  Entry-iff ((k, false) ∷ units) (h, hs) = ((h.0, λ v. h.1 ((same k).1 v)), Entry-iff units hs)

module _ (u : ℤ) where
  use_unit-All_ne :
      (k : ℤ) (units : Units)
      → u ≢ k
      → All (λ e. e.0 ≢ k) units
      → All (λ e. e.0 ≢ k) (use_unit u units)
  unfolding use_unit
  use_unit-All_ne k [] n h = (n, tt)
  use_unit-All_ne k ((j, v) ∷ units) n (h, hs) = elim (Bool-cases (eq_ℤ j u)) [
    | inl e ↦ rw e (h, hs)
    | inr e ↦ rw e (h, use_unit-All_ne k units n hs)
  ]

  pub use_unit-Distinct : (units : Units) → Distinct units → Distinct (use_unit u units)
  unfolding use_unit
  use_unit-Distinct [] _ = (tt, tt)
  use_unit-Distinct ((k, v) ∷ units) (h, hs) = elim (Bool-cases (eq_ℤ k u)) [
    | inl e ↦ rw e (h, hs)
    | inr e ↦
        rw e (use_unit-All_ne k units (λ p. cc (eq_ℤ_refl k, p, e)) h, use_unit-Distinct units hs)
  ]

  All-ne_of_eq :
      {k : ℤ} → k ≡ u → (units : Units) → All (λ e. e.0 ≢ k) units → All (λ e. e.0 ≢ u) units
  All-ne_of_eq p [] _ = tt
  All-ne_of_eq p (e ∷ units) (h, hs) = (λ q. h (q ∙ sym p), All-ne_of_eq p units hs)

  module _ (U : ℤ → Type 0) where
    Entry-other :
        (units : Units)
        → All (λ e. e.0 ≢ u) units
        → All (Entry U) units
        → All (Entry (λ k. U k ⊎ (k ≡ u))) units
    Entry-other [] _ _ = tt
    Entry-other ((k, true) ∷ units) (n, ns) (h, hs) = (inl h, Entry-other units ns hs)
    Entry-other ((k, false) ∷ units) (n, ns) (h, hs) =
        ((h.0, λ x. elim x [ inl used ↦ h.1 used | inr e ↦ n e ]), Entry-other units ns hs)

    Entry-head : (k : ℤ) (v : Bool) → k ≢ u → Entry U (k, v) → Entry (λ j. U j ⊎ (j ≡ u)) (k, v)
    Entry-head k true n h = inl h
    Entry-head k false n h = (h.0, λ x. elim x [ inl used ↦ h.1 used | inr e ↦ n e ])

    pub use_unit-Entry :
        (units : Units)
        → Distinct units
        → All (Entry U) units
        → All (Entry (λ k. U k ⊎ (k ≡ u))) (use_unit u units)
    unfolding use_unit
    use_unit-Entry [] _ _ = (inr refl, tt)
    use_unit-Entry ((k, v) ∷ units) (d, ds) (h, hs) = elim (Bool-cases (eq_ℤ k u)) [
      | inl e ↦ let p = eq_ℤ→eq k u e in rw e (inr p, Entry-other units (All-ne_of_eq p units d) hs)
      | inr e ↦ rw e (Entry-head k v (λ p. cc (eq_ℤ_refl k, p, e)) h, use_unit-Entry units ds hs)
    ]

module _ (bus : ℤ) where
  pub mark_units-Entry :
      (settings : List (Option DiskSettings)) (U : ℤ → Type 0) (units : Units)
      → Distinct units
      → All (Entry U) units
      → All (Entry (λ k. U k ⊎ Any (Uses bus k) settings)) (mark_units bus settings units)
  unfolding mark_units
  mark_units-Entry [] U units d h =
      Entry-iff (λ k. (inl, λ x. elim x [ inl u ↦ u | inr a ↦ absurd (Any-nil a) ])) units h
  mark_units-Entry (none ∷ settings) U units d h =
      Entry-iff (λ k. Any-skip (λ x. x)) _ (mark_units-Entry settings U units d h)
  mark_units-Entry (some s ∷ settings) U units d h = elim (Bool-cases (eq_ℤ s.bus_number bus)) [
    | inl e ↦
        let p = eq_ℤ→eq s.bus_number bus e in
        rw e (
          Entry-iff (λ k. Any-move (λ q. (p, sym q), λ u. sym u.1)) _
            (mark_units-Entry settings (λ k. U k ⊎ (k ≡ s.unit_number))
              (use_unit s.unit_number units) (use_unit-Distinct s.unit_number units d)
              (use_unit-Entry s.unit_number U units d h)))
    | inr e ↦ rw e (
        Entry-iff (λ k. Any-skip (λ u. cc (eq_ℤ_refl bus, u.0, e))) _
          (mark_units-Entry settings U units d h))
  ]

-- A unit stays an entry.
abbrev pub Has : ℤ → Units → Type 0
Has k = Any (λ e. e.0 ≡ k)

use_unit-Has : (k u : ℤ) (units : Units) → Has k units → Has k (use_unit u units)
unfolding use_unit
use_unit-Has k u [] a = elim a [ ]
use_unit-Has k u ((j, v) ∷ units) a = elim (Bool-cases (eq_ℤ j u)) [
  | inl e ↦ rw e (elim (Any-cons a) [ inl p ↦ first p | inr b ↦ later b ])
  | inr e ↦ rw e (elim (Any-cons a) [ inl p ↦ first p | inr b ↦ later (use_unit-Has k u units b) ])
]

pub mark_units-Has :
    (k bus : ℤ) (settings : List (Option DiskSettings)) (units : Units)
    → Has k units
    → Has k (mark_units bus settings units)
unfolding mark_units
mark_units-Has k bus [] units h = h
mark_units-Has k bus (none ∷ settings) units h = mark_units-Has k bus settings units h
mark_units-Has k bus (some s ∷ settings) units h = elim (Bool-cases (eq_ℤ s.bus_number bus)) [
  | inl e ↦ rw e (mark_units-Has k bus settings _ (use_unit-Has k s.unit_number units h))
  | inr e ↦ rw e (mark_units-Has k bus settings units h)
]
