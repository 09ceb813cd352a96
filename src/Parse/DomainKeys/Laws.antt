-- ===== src/Parse/DomainKeys/Laws.antt =====
-- What the keys of the domains write.
use pinsight.Common.{
  ℕ, ◌/◌, ◌%◌, ◌^◌, ◌<◌, Bool, true, false, List, ◌==◌, if◌then◌else◌, ◌≡◌, arith,
}
use pinsight.Common.Words.{
  bit_at, bit_not, bit_at-lt, bit_at-bit_or, bit_at-bit_and, bit_at-pow, bit_at-bit_not,
}
use native.Mathlib.Nat.{pow-le-pow_right}
use pinsight.Config.Domain.{DomainInfo}
use pinsight.Parse.State.{switch_event, enables}

mask_lt : (eid : ℕ) → eid < 64 → 2 ^ eid < 2 ^ 64
mask_lt eid h =
    omega (arith, pow-le-pow_right {n = 2} (omega arith) {i = eid} {j = 63} (omega arith))

-- A key that names an event, on any event mask: the bit of that event becomes what the value says,
-- which is on only if the event is installed, and every other bit stays.
pub bit_at-switch_event :
    (info : DomainInfo) (eid k events : ℕ) (val : List ℕ)
    → eid < 64
    → k < 64
    → (bit_at k (switch_event (enables info eid val) eid events)
        ≡ (if k == eid then (if enables info eid val then 1 else 0) else bit_at k events))
      × (enables info eid val ≡ true → info.event_install_status / 2 ^ eid % 2 ≡ 1)
unfolding switch_event enables
bit_at-switch_event info eid k events val h l = (go (enables info eid val), λ e. ground arith)
  where
    go :
        (b : Bool)
        → bit_at k (switch_event b eid events)
          ≡ (if k == eid then (if b then 1 else 0) else bit_at k events)
    go true = ground (arith, bit_at-bit_or k events (2 ^ eid), bit_at-pow k eid, bit_at-lt k events)
    go false = ground (
      arith,
      bit_at-bit_and k events (bit_not 64 (2 ^ eid)),
      bit_at-bit_not k 64 (2 ^ eid) l (mask_lt eid h),
      bit_at-pow k eid,
      bit_at-lt k events,
    )
