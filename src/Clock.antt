-- ===== src/Clock.antt =====
-- src/syncengine/HybridLogicalClock.cpp. A timestamp is a uint64_t: 48 bits of milliseconds above
-- a 16-bit logical counter. The reading of the system clock is an argument of each call; the mutex
-- makes a call one step.
mod Bits
pub mod Order
pub mod Chain
pub mod Fields
use Prim.Native.Nat.{max, bit_or, bit_and}
use qsqlite_sync_engine.Prelude.{
  ℕ, ◌+◌, ◌-◌, ◌*◌, ◌/◌, ◌%◌, ◌^◌, Bool, ◌&&◌, ltb, ◌==◌, if◌then◌else◌,
}

abbrev pub logical_bits : ℕ
logical_bits = 16

abbrev logical_mask : ℕ
logical_mask = 2 ^ logical_bits - 1

-- `uint64_t` and `uint16_t` conversions
abbrev pub u64 : ℕ → ℕ
u64 n = n % 2 ^ 64

abbrev pub u16 : ℕ → ℕ
u16 n = n % 2 ^ 16

unfoldable pub physical_component : ℕ → ℕ
physical_component hlc = hlc / 2 ^ logical_bits

unfoldable pub logical_component : ℕ → ℕ
logical_component hlc = u16 (bit_and hlc logical_mask)

-- The parameter `logical` is a `uint16_t`: an argument that is larger wraps around.
unfoldable pub pack : ℕ → ℕ → ℕ
pack physical_ms logical = bit_or (u64 (physical_ms * 2 ^ logical_bits)) (u16 logical)

-- The constructor's state.
unfoldable pub init : ℕ → ℕ
unfolding pack
init wall = pack wall 0

-- `now` and `receive` return the new state, which is also their result.
unfoldable pub now : ℕ → ℕ → ℕ
unfolding pack physical_component logical_component
now wall hlc =
    let old_phys = physical_component hlc in
    let old_logical = logical_component hlc in
    if ltb old_phys wall then pack wall 0 else pack old_phys (old_logical + 1)

unfoldable pub receive : ℕ → ℕ → ℕ → ℕ
unfolding pack physical_component logical_component
receive wall hlc remote_hlc =
    let local_phys = physical_component hlc in
    let local_logical = logical_component hlc in
    let remote_phys = physical_component remote_hlc in
    let remote_logical = logical_component remote_hlc in
    let max_phys = max wall (max local_phys remote_phys) in
    if max_phys == local_phys && max_phys == remote_phys
    then pack max_phys (max local_logical remote_logical + 1)
    else if max_phys == local_phys
    then pack max_phys (local_logical + 1)
    else if max_phys == remote_phys
    then pack max_phys (remote_logical + 1)
    else pack max_phys 0
