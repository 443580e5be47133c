-- ===== src/Runtime/Watermark.antt =====
-- src/zord/runtime/watermark.py: the overflow policy. Bytes are natural numbers, a fraction is in
-- percent and a rate in bytes per second (a 1e-9 of the code's GB/s), so a quotient of rates is compared by a
-- multiplication and `int(frac * capacity)` is `frac * capacity / 100`. The texts are left out.
pub mod Admission
pub mod Tests
use zord.Base.{ℕ, zero, suc, ◌+◌, ◌-◌, ◌*◌, ◌/◌, Bool, true, false, ◌&&◌, ltb, leb, if◌then◌else◌}

pub data OverflowMode : Type 0 where
  reactive proactive : OverflowMode

pub data SpillTier : Type 0 where
  buffer_gpu cpu : SpillTier

pub record WatermarkPolicy : Type 0 where
  pub capacity_bytes : ℕ
  pub fill_rate : ℕ
  pub evict_rate : ℕ
  pub increment_bytes : ℕ
  pub high_frac : ℕ
  pub low_frac : ℕ
  pub safety_headroom_frac : ℕ
  pub tier : SpillTier

-- `viability_ratio < 1.0`; the ratio is infinite where nothing fills.
unfoldable pub falls_behind : WatermarkPolicy → Bool
falls_behind p = ltb 0 p.fill_rate && ltb p.evict_rate p.fill_rate

-- `evict_per_interval_gb >= increment_bytes / GB`, both sides multiplied by the fill rate; the
-- interval is 0 where nothing fills.
unfoldable pub evicts_increment : WatermarkPolicy → Bool
evicts_increment p =
    if ltb 0 p.fill_rate
    then leb (p.increment_bytes * p.fill_rate) (p.evict_rate * p.increment_bytes)
    else leb p.increment_bytes 0

unfoldable pub mode : WatermarkPolicy → OverflowMode
unfolding falls_behind evicts_increment
mode p = if falls_behind p then proactive else if evicts_increment p then reactive else proactive

unfoldable pub reactive_viable : WatermarkPolicy → Bool
unfolding mode
reactive_viable p = elim (mode p) [ reactive ↦ true | proactive ↦ false ]

unfoldable pub high_watermark_bytes : WatermarkPolicy → ℕ
high_watermark_bytes p = p.high_frac * p.capacity_bytes / 100

unfoldable pub low_watermark_bytes : WatermarkPolicy → ℕ
low_watermark_bytes p = p.low_frac * p.capacity_bytes / 100

unfoldable pub usable_ceiling_bytes : WatermarkPolicy → ℕ
usable_ceiling_bytes p = (100 - p.safety_headroom_frac) * p.capacity_bytes / 100

pub record AdmissionResult : Type 0 where
  pub admit : Bool
  pub must_spill_bytes : ℕ

-- The watermark checks, for what would be resident after an allocation that fits.
unfoldable pub watermark_check : WatermarkPolicy → ℕ → AdmissionResult
unfolding reactive_viable high_watermark_bytes low_watermark_bytes usable_ceiling_bytes
watermark_check p after =
    if ltb (usable_ceiling_bytes p) after
    then record { admit = reactive_viable p; must_spill_bytes = after - low_watermark_bytes p }
    else if ltb (high_watermark_bytes p) after
    then record { admit = true; must_spill_bytes = after - low_watermark_bytes p }
    else record { admit = true; must_spill_bytes = 0 }

-- `alloc_bytes > free` with `free = capacity_bytes - resident_bytes`, which may be negative:
-- `need_free` is what is above the capacity.
unfoldable pub admit_allocation : WatermarkPolicy → ℕ → ℕ → AdmissionResult
unfolding reactive_viable watermark_check
admit_allocation p resident alloc =
    let after = resident + alloc in
    if ltb p.capacity_bytes after
    then record { admit = reactive_viable p; must_spill_bytes = after - p.capacity_bytes }
    else watermark_check p after

pub record TierScore : Type 0 where
  pub recommended : SpillTier
  pub buffer_gpu_margin : ℕ × ℕ
  pub cpu_margin : ℕ × ℕ

-- A margin is the exact quotient of two rates; `1e-9` of the code is the rate 1.
unfoldable pub score_spill_tier : ℕ → ℕ → ℕ → TierScore
score_spill_tier fill nvlink pcie =
    let f = if ltb 0 fill then fill else 1 in
    record {
      recommended = if leb (3 * f) (2 * nvlink) && ltb pcie nvlink then buffer_gpu else cpu;
      buffer_gpu_margin = (nvlink, f);
      cpu_margin = (pcie, f);
    }

unfoldable pub policy_from_rates : ℕ → ℕ → ℕ → ℕ → SpillTier → ℕ → ℕ → ℕ → WatermarkPolicy
policy_from_rates capacity_bytes increment_bytes fill evict tier high low headroom = record {
  capacity_bytes = capacity_bytes;
  fill_rate = fill;
  evict_rate = evict;
  increment_bytes = increment_bytes;
  high_frac = high;
  low_frac = low;
  safety_headroom_frac = headroom;
  tier = tier;
}
