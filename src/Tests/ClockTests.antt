-- ===== src/Tests/ClockTests.antt =====
-- The clock at concrete readings.
use qsqlite_sync_engine.Prelude.{ℕ, ◌+◌, ◌*◌, ◌-◌, ◌^◌, ◌<◌, ◌≡◌, refl, List, [], ◌∷◌, arith}
use qsqlite_sync_engine.Clock.{physical_component, logical_component, now, receive}
use qsqlite_sync_engine.Clock.Order.{now_wraps}
use qsqlite_sync_engine.Clock.Chain.{Event, local, remote, Increasing, Increasing-of_room}

-- 100 ms with counter 3, and 70 ms with counter 5
abbrev clock : ℕ
clock = 100 * 65536 + 3

abbrev other_clock : ℕ
other_clock = 170 * 65536 + 5

-- a clock whose counter is at its maximum
abbrev full_clock : ℕ
full_clock = 100 * 65536 + 65535

now_ahead : now 120 clock ≡ 120 * 65536
unfolding now
now_ahead = refl

now_behind : now 80 clock ≡ 100 * 65536 + 4
unfolding now
now_behind = refl

receive_later : receive 80 clock other_clock ≡ 170 * 65536 + 6
unfolding receive
receive_later = refl

now_wraps_example :
    (now 80 full_clock ≡ full_clock - (2 ^ 16 - 1)) × (now 80 full_clock < full_clock)
unfolding physical_component logical_component
now_wraps_example = now_wraps 80 full_clock (omega arith) (omega arith) refl

abbrev history : List Event
history = local 120 ∷ remote 90 other_clock ∷ local 50 ∷ []

Increasing-of_room_example : Increasing clock history
unfolding logical_component
Increasing-of_room_example = Increasing-of_room history clock (omega arith) (omega arith)
