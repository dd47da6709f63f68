-- ===== src/Telemetry/Slots.antt =====
-- telemetry.ts: which input of which probe a signal is attached to.
use vcv_rack_mcp.Prelude.{
  ℕ, zero, suc, ◌+◌, ◌≤◌, ◌<◌, ◌≡◌, refl, ◌⊎◌, inl, inr, String, Bool, true, false, List, [], ◌∷◌,
  none, some, str_eq, eq_refl, any, ◌==◌, ◌&&◌, All, Bool-cases, arith,
}
use vcv_rack_mcp.Telemetry.{
  Snapshot, SnapshotModule, ProbeInput, existing_slot, new_slot, probe_inputs, is_free, free_input,
  free_slot, probes, choose_slot,
}

free_input_cases :
    (inputs : List ProbeInput) (i n : ℕ)
    → ((j : ℕ) × (free_input inputs i n ≡ some j) × (j < i + n) × (is_free inputs j ≡ true))
      ⊎ ((free_input inputs i n ≡ none) × ((j : ℕ) → i ≤ j → j < i + n → is_free inputs j ≡ false))
unfolding free_input
free_input_cases inputs i zero = inr (refl, λ j low high. absurd (omega arith))
free_input_cases inputs i (suc n) = elim (Bool-cases (is_free inputs i)) [
  | inl free ↦ inl (i, rw free refl, omega arith, free)
  | inr taken ↦ elim (free_input_cases inputs (suc i) n) [
    | inl (j, found, small, free) ↦ inl (j, rw taken found, omega arith, free)
    | inr (full, rest) ↦ inr (
      rw taken full,
      λ j low high. elim (Bool-cases (j == i)) [
        | inl same ↦ let at : j ≡ i = ground arith in rw at taken
        | inr other ↦ rest j (ground arith) (omega arith)
      ],
    )
  ]
]

-- The probe has the id, and the input is known and not connected.
abbrev pub offers : String → ℕ → SnapshotModule → Bool
offers id i m = str_eq m.module_id id && is_free m.inputs i

abbrev pub IsFull : SnapshotModule → Type 0
IsFull m = (i : ℕ) → i < 8 → is_free m.inputs i ≡ false

free_slot_cases :
    (ms : List SnapshotModule)
    → ((id : String) × (i : ℕ) × (free_slot ms ≡ some (existing_slot id i))
        × (i < 8)
        × (any (offers id i) ms ≡ true))
      ⊎ ((free_slot ms ≡ none) × All IsFull ms)
unfolding free_slot
free_slot_cases [] = inr (refl, tt)
free_slot_cases (m ∷ ms) = elim (free_input_cases m.inputs 0 probe_inputs) [
  | inl (i, found, small, free) ↦ inl (
    m.module_id,
    i,
    rw (found, free_slot) refl,
    omega arith,
    ground (arith, free, eq_refl m.module_id),
  )
  | inr (full, taken) ↦ elim (free_slot_cases ms) [
    | inl (id, i, found, small, offered) ↦
        inl (id, i, rw (full, free_slot) found, small, ground (arith, offered))
    | inr (none_left, rest) ↦
        inr (rw (full, free_slot) none_left, (λ j small. taken j (omega arith) (omega arith), rest))
  ]
]

-- Without an explicit probe, the slot is an input below 8 of some probe of the snapshot that is there
-- and not connected; a new probe is added only if every probe has all of its eight inputs connected
-- or missing.
pub choose_slot_cases :
    (snap : Snapshot)
    → ((id : String) × (i : ℕ) × (choose_slot snap none ≡ existing_slot id i)
        × (i < 8)
        × (any (offers id i) (probes snap) ≡ true))
      ⊎ ((choose_slot snap none ≡ new_slot) × All IsFull (probes snap))
unfolding choose_slot
choose_slot_cases snap = elim (free_slot_cases (probes snap)) [
  | inl (id, i, found, small, offered) ↦ inl (id, i, rw (found, choose_slot) refl, small, offered)
  | inr (full, taken) ↦ inr (rw (full, choose_slot) refl, taken)
]
