-- ===== src/Runtime/Watermark/Tests.antt =====
-- Tests and examples of the overflow policy.
use zord.Base.{◌+◌, ◌-◌, ◌≤◌, ◌≡◌, refl, true, arith, min}
use zord.Runtime.Watermark.{
  WatermarkPolicy, cpu, policy_from_rates, reactive_viable, admit_allocation, high_watermark_bytes,
  low_watermark_bytes, usable_ceiling_bytes,
}
use zord.Runtime.Watermark.Admission.{admit_allocation-keeps_slack}

abbrev policy : WatermarkPolicy
policy = record {
  capacity_bytes = 1000;
  fill_rate = 48;
  evict_rate = 50;
  increment_bytes = 100;
  high_frac = 85;
  low_frac = 70;
  safety_headroom_frac = 10;
  tier = cpu;
}

from_rates : policy_from_rates 1000 100 48 50 cpu 85 70 10 ≡ policy
unfolding policy_from_rates
from_rates = refl

viable : reactive_viable policy ≡ true
unfolding reactive_viable
viable = refl

spills : (admit_allocation policy 800 100).must_spill_bytes ≡ 200
unfolding admit_allocation
spills = refl

admit_allocation-keeps_slack_example :
    800 + 150 - (admit_allocation policy 800 150).must_spill_bytes
    ≤ min (high_watermark_bytes policy) (usable_ceiling_bytes policy)
unfolding high_watermark_bytes low_watermark_bytes usable_ceiling_bytes
admit_allocation-keeps_slack_example =
    admit_allocation-keeps_slack policy 800 150 (omega arith) (omega arith) (omega arith)
