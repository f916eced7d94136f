-- ===== src/Clock/Chain.antt =====
-- A clock over its whole life: local timestamps and remote ones in any order, under any system clock.
use qsqlite_sync_engine.Prelude.{ℕ, suc, ◌+◌, ◌^◌, ◌<◌, inr, List, [], ◌∷◌, arith, length, All}
use qsqlite_sync_engine.Clock.{logical_component, now, receive}
use qsqlite_sync_engine.Clock.Order.{lt-now, logical-now, lt-receive, logical-receive}

-- one call, with the reading of the system clock
pub data Event : Type 0 where
  local : ℕ → Event
  remote : ℕ → ℕ → Event

abbrev pub step : Event → ℕ → ℕ
step (local wall) hlc = now wall hlc
step (remote wall r) hlc = receive wall hlc r

-- The event is in range, and its counter leaves room for `n` more.
abbrev pub InRange : ℕ → Event → Type 0
InRange n (local wall) = wall < 2 ^ 48
InRange n (remote wall r) = (wall < 2 ^ 48) × (r < 2 ^ 64) × (logical_component r + n < 2 ^ 16)

abbrev pub Above : Event → ℕ → Type 0
Above (local wall) t = Unit
Above (remote wall r) t = r < t

-- Each timestamp is above the one before, and above the remote timestamp of its event.
abbrev pub Increasing : ℕ → List Event → Type 0
Increasing hlc [] = Unit
Increasing hlc (e ∷ es) = (hlc < step e hlc) × Above e (step e hlc) × Increasing (step e hlc) es

-- the counter has room for `n` more
abbrev pub HasRoom : ℕ → ℕ → Type 0
HasRoom n hlc = (hlc < 2 ^ 64) × (logical_component hlc + n < 2 ^ 16)

step-HasRoom :
    (n : ℕ) (e : Event) (hlc : ℕ)
    → InRange (suc n) e
    → HasRoom (suc n) hlc
    → (hlc < step e hlc) × Above e (step e hlc) × HasRoom n (step e hlc)
step-HasRoom n (local wall) hlc hw h =
    omega (arith, lt-now wall hlc hw h.0 (inr (omega arith)), logical-now wall hlc hw h.0)
step-HasRoom n (remote wall r) hlc h k = omega (
  arith,
  lt-receive wall hlc r h.0 k.0 h.1 (omega arith) (omega arith),
  logical-receive wall hlc r h.0 k.0 h.1,
)

InRange-down : (n : ℕ) (es : List Event) → All (InRange (suc n)) es → All (InRange n) es
InRange-down n [] h = tt
InRange-down n (local wall ∷ es) h = (h.0, InRange-down n es h.1)
InRange-down n (remote wall r ∷ es) h = (omega arith, InRange-down n es h.1)

-- From a clock whose counter, like that of each remote timestamp, has room for one step per event,
-- every local timestamp is above all earlier ones of this clock, and every timestamp made on receipt
-- is also above the one received, however the system clock jumps.
pub Increasing-of_room :
    (es : List Event) (hlc : ℕ)
    → HasRoom (length es) hlc
    → All (InRange (length es)) es
    → Increasing hlc es
Increasing-of_room [] hlc room h = tt
Increasing-of_room (e ∷ es) hlc room h =
    let now_above = step-HasRoom (length es) e hlc h.0 room in
    let rest = Increasing-of_room es (step e hlc) now_above.2 (InRange-down (length es) es h.1) in
    (now_above.0, now_above.1, rest)
