-- ===== src/Clock/Order.antt =====
-- The timestamps that `now` and `receive` hand out are increasing while the counter has room.
use Prim.Native.Nat.{max}
use qsqlite_sync_engine.Prelude.{
  ℕ, ◌+◌, ◌*◌, ◌/◌, ◌%◌, ◌^◌, ◌-◌, ◌≤◌, ◌<◌, ◌≡◌, ◌⊎◌, arith, ltb, ◌==◌, ◌&&◌, if◌then◌else◌,
}
use qsqlite_sync_engine.Clock.{physical_component, logical_component, pack, now, receive}
use qsqlite_sync_engine.Clock.Bits.{bit_or_low, bit_and_mask}

logical_component_lem : (hlc : ℕ) → logical_component hlc ≡ hlc % 65536
unfolding logical_component
logical_component_lem hlc = omega (arith, bit_and_mask hlc)

pack_lem : (p l : ℕ) → p < 2 ^ 48 → pack p l ≡ p * 65536 + l % 65536
unfolding pack
pack_lem p l h =
    let fits : p * 2 ^ 16 % 2 ^ 64 ≡ p * 2 ^ 16 = omega arith in
    rw fits (bit_or_low 16 p (l % 2 ^ 16) (omega arith))

-- whatever the arguments, the result is a `uint64_t`
pub pack-lt : (p l : ℕ) → pack p l < 2 ^ 64
unfolding pack
pack-lt p l =
    let e : p * 2 ^ 16 % 2 ^ 64 ≡ p % 2 ^ 48 * 2 ^ 16 = omega arith in
    rw (e, bit_or_low 16 (p % 2 ^ 48) (l % 2 ^ 16) (omega arith)) (omega arith)

pub now-lt : (wall hlc : ℕ) → now wall hlc < 2 ^ 64
unfolding now
now-lt wall hlc =
    ground (arith, pack-lt wall 0, pack-lt (physical_component hlc) (logical_component hlc + 1))

-- `pack` is undone by the two components, for 48 bits of milliseconds and a 16-bit counter.
pub components-pack :
    (p l : ℕ)
    → p < 2 ^ 48
    → l < 2 ^ 16
    → (physical_component (pack p l) ≡ p) × (logical_component (pack p l) ≡ l)
unfolding physical_component
components-pack p l hp hl = rw (logical_component_lem, pack_lem p l hp) (omega arith, omega arith)

-- Packing the two components of a 64-bit timestamp gives it back.
pub pack-components :
    (hlc : ℕ) → hlc < 2 ^ 64 → pack (physical_component hlc) (logical_component hlc) ≡ hlc
unfolding physical_component
pack-components hlc h =
    rw (logical_component_lem, pack_lem (hlc / 2 ^ 16) (hlc % 65536) (omega arith)) (omega arith)

pub physical-lt : (hlc : ℕ) → hlc < 2 ^ 64 → physical_component hlc < 2 ^ 48
unfolding physical_component
physical-lt hlc h = omega arith

pub logical-lt : (hlc : ℕ) → logical_component hlc < 2 ^ 16
logical-lt hlc = rw (logical_component_lem hlc) (omega arith)

-- `now` without the bit operations
now_lem :
    (wall hlc : ℕ)
    → wall < 2 ^ 48
    → hlc < 2 ^ 64
    → now wall hlc ≡ (
        if ltb (hlc / 65536) wall
        then wall * 65536
        else hlc / 65536 * 65536 + (hlc % 65536 + 1) % 65536)
unfolding now physical_component
now_lem wall hlc hw hh =
    rw
      (
        logical_component_lem,
        pack_lem wall 0 hw,
        pack_lem (hlc / 2 ^ 16) (hlc % 65536 + 1) (omega arith),
      )
      (ground arith)

-- A local timestamp is above the clock's value however the system clock moved, and its milliseconds
-- are the later ones of the two, if the system clock is ahead or the counter is not at its maximum.
pub lt-now :
    (wall hlc : ℕ)
    → wall < 2 ^ 48
    → hlc < 2 ^ 64
    → (physical_component hlc < wall) ⊎ (logical_component hlc < 2 ^ 16 - 1)
    → (hlc < now wall hlc)
      × (now wall hlc < 2 ^ 64)
      × (physical_component (now wall hlc) ≡ max wall (physical_component hlc))
unfolding physical_component
lt-now wall hlc hw hh room = rw (now_lem wall hlc hw hh) (ground (arith, logical_component_lem hlc))

-- the counter grows by one at most
pub logical-now :
    (wall hlc : ℕ)
    → wall < 2 ^ 48
    → hlc < 2 ^ 64
    → logical_component (now wall hlc) ≤ logical_component hlc + 1
logical-now wall hlc hw hh =
    rw (now_lem wall hlc hw hh, logical_component_lem hlc, logical_component_lem) (ground arith)

-- Where the counter is at its maximum and the system clock is not ahead, the counter wraps around
-- to 0 and the new timestamp is below the one before.
pub now_wraps :
    (wall hlc : ℕ)
    → hlc < 2 ^ 64
    → wall ≤ physical_component hlc
    → logical_component hlc ≡ 2 ^ 16 - 1
    → (now wall hlc ≡ hlc - (2 ^ 16 - 1)) × (now wall hlc < hlc)
unfolding physical_component
now_wraps wall hlc hh hw hl =
    rw (now_lem wall hlc (omega arith) hh) (ground (arith, logical_component_lem hlc))

-- `receive` without the bit operations
receive_lem :
    (wall hlc remote : ℕ)
    → wall < 2 ^ 48
    → hlc < 2 ^ 64
    → remote < 2 ^ 64
    → receive wall hlc remote ≡ (
        let m = max wall (max (hlc / 65536) (remote / 65536)) in
        m * 65536
        + (if m == hlc / 65536 && m == remote / 65536
            then max (hlc % 65536) (remote % 65536) + 1
            else if m == hlc / 65536
            then hlc % 65536 + 1
            else if m == remote / 65536
            then remote % 65536 + 1
            else 0)
          % 65536)
unfolding receive physical_component
receive_lem wall hlc remote hw hh hr =
    let m = max wall (max (hlc / 65536) (remote / 65536)) in
    let fits : m < 2 ^ 48 = omega arith in
    rw (logical_component_lem hlc, logical_component_lem remote)
      (ground (
        arith,
        pack_lem m (max (hlc % 65536) (remote % 65536) + 1) fits,
        pack_lem m (hlc % 65536 + 1) fits,
        pack_lem m (remote % 65536 + 1) fits,
        pack_lem m 0 fits,
      ))

-- After a remote timestamp the clock is above its old value and above the remote one, and its
-- milliseconds are the latest of the three, if neither counter is at its maximum.
pub lt-receive :
    (wall hlc remote : ℕ)
    → wall < 2 ^ 48
    → hlc < 2 ^ 64
    → remote < 2 ^ 64
    → logical_component hlc < 2 ^ 16 - 1
    → logical_component remote < 2 ^ 16 - 1
    → (hlc < receive wall hlc remote)
      × (remote < receive wall hlc remote)
      × (receive wall hlc remote < 2 ^ 64)
      × (physical_component (receive wall hlc remote)
          ≡ max wall (max (physical_component hlc) (physical_component remote)))
unfolding physical_component
lt-receive wall hlc remote hw hh hr hl hm =
    rw (receive_lem wall hlc remote hw hh hr)
      (ground (arith, logical_component_lem hlc, logical_component_lem remote))

pub logical-receive :
    (wall hlc remote : ℕ)
    → wall < 2 ^ 48
    → hlc < 2 ^ 64
    → remote < 2 ^ 64
    → logical_component (receive wall hlc remote)
      ≤ max (logical_component hlc) (logical_component remote) + 1
logical-receive wall hlc remote hw hh hr =
    rw (receive_lem wall hlc remote hw hh hr, logical_component_lem hlc)
      (rw (logical_component_lem remote, logical_component_lem) (ground arith))
