-- ===== src/Runtime/Watermark/Admission.antt =====
-- src/zord/runtime/watermark.py: what the mode depends on and what an admission guarantees.
use zord.Base.{ℕ, ◌+◌, ◌-◌, ◌*◌, ◌≤◌, ◌<◌, ◌≡◌, ◌⊎◌, ◌↔◌, true, false, arith, leb, min, scale-le}
use zord.Runtime.Watermark.{
  WatermarkPolicy, reactive_viable, falls_behind, evicts_increment, mode, high_watermark_bytes,
  low_watermark_bytes, usable_ceiling_bytes, watermark_check, admit_allocation,
}

module _ (p : WatermarkPolicy) where
  keeps_up :
      p.fill_rate ≤ p.evict_rate
      → leb (p.increment_bytes * p.fill_rate) (p.evict_rate * p.increment_bytes) ≡ true
  keeps_up le = ground (arith, scale-le p.fill_rate p.evict_rate p.increment_bytes le)

  -- The policy is reactive exactly when it evicts at least as fast as it fills, and when nothing
  -- fills only if the increment is empty.
  pub reactive_viable_iff :
      (reactive_viable p ≡ true)
      ↔ ((p.fill_rate ≤ p.evict_rate) × ((0 < p.fill_rate) ⊎ (p.increment_bytes ≡ 0)))
  unfolding reactive_viable mode falls_behind evicts_increment
  reactive_viable_iff =
      ((λ q. (ground arith, ground arith)), λ (le, why). ground (arith, keeps_up le))

  -- An allocation is refused exactly when the policy is not reactive and the allocation would pass
  -- the capacity or the safety ceiling.
  pub admit_allocation_iff :
      (resident alloc : ℕ)
      → ((admit_allocation p resident alloc).admit ≡ false) ↔ (
          (reactive_viable p ≡ false)
          × ((p.capacity_bytes < resident + alloc) ⊎ (usable_ceiling_bytes p < resident + alloc)))
  unfolding admit_allocation watermark_check
  admit_allocation_iff resident alloc = ground arith

  module _ (resident alloc : ℕ) where
    -- Once the bytes that an admission asks for are spilled, the allocation fits the memory, if the
    -- low watermark does.
    pub admit_allocation-fits :
        low_watermark_bytes p ≤ p.capacity_bytes
        → resident + alloc - (admit_allocation p resident alloc).must_spill_bytes ≤ p.capacity_bytes
    unfolding admit_allocation watermark_check
    admit_allocation-fits lk = ground arith

    -- With the low watermark at most the high one and the ceiling, an allocation that fits the free
    -- memory is within both of these once the bytes are spilled.
    pub admit_allocation-keeps_slack :
        low_watermark_bytes p ≤ high_watermark_bytes p
        → low_watermark_bytes p ≤ usable_ceiling_bytes p
        → resident + alloc ≤ p.capacity_bytes
        → resident + alloc - (admit_allocation p resident alloc).must_spill_bytes
          ≤ min (high_watermark_bytes p) (usable_ceiling_bytes p)
    unfolding admit_allocation watermark_check
    admit_allocation-keeps_slack lh lc fits = ground arith

    -- No more is to be spilled than is resident, for an allocation of at most the low watermark.
    pub must_spill-le_resident :
        low_watermark_bytes p ≤ p.capacity_bytes
        → alloc ≤ low_watermark_bytes p
        → (admit_allocation p resident alloc).must_spill_bytes ≤ resident
    unfolding admit_allocation watermark_check
    must_spill-le_resident lk small = ground arith

  -- A reactive policy admits an allocation that is larger than the whole memory and asks for more
  -- bytes to be spilled than are resident.
  pub admit_allocation-oversized :
      (resident alloc : ℕ)
      → reactive_viable p ≡ true
      → p.capacity_bytes < alloc
      → ((admit_allocation p resident alloc).admit ≡ true)
        × (resident < (admit_allocation p resident alloc).must_spill_bytes)
  unfolding admit_allocation
  admit_allocation-oversized resident alloc viable big = (ground arith, ground arith)
