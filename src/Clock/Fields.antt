-- ===== src/Clock/Fields.antt =====
-- The two fields of a timestamp of src/syncengine/HybridLogicalClock.cpp.
use std.Equiv.{IsEquiv, Iso, iso_to_equiv}
use std.HLevel.{Σ_prop_path}
use native.Mathlib.Bridge.{le_prop}
use qsqlite_sync_engine.Prelude.{ℕ, ◌^◌, ◌<◌}
use qsqlite_sync_engine.Clock.{physical_component, logical_component, pack}
use qsqlite_sync_engine.Clock.Order.{
  pack-lt, components-pack, pack-components, physical-lt, logical-lt,
}

-- what a `uint64_t` can hold
abbrev pub Timestamp : Type 0
Timestamp = (t : ℕ) × t < 2 ^ 64

-- milliseconds of 48 bits, and a `uint16_t`
abbrev pub Fields : Type 0
Fields = (f : ℕ × ℕ) × ((f.0 < 2 ^ 48) × (f.1 < 2 ^ 16))

abbrev pub pack_fields : Fields → Timestamp
pack_fields f = (pack f.0.0 f.0.1, pack-lt f.0.0 f.0.1)

fields_of : Timestamp → Fields
fields_of t =
    ((physical_component t.0, logical_component t.0), (physical-lt t.0 t.1, logical-lt t.0))

-- A timestamp is exactly its two fields: `pack` is a bijection from the milliseconds of 48 bits and
-- the counters of 16 bits onto the numbers of 64 bits.
pub pack_fields-IsEquiv : IsEquiv pack_fields
unfolding fields_of
pack_fields-IsEquiv =
    let iso : Iso Fields Timestamp = record {
      fun = pack_fields;
      inv = fields_of;
      rinv = λ t. Σ_prop_path (λ x. le_prop) (pack-components t.0 t.1);
      linv = λ f.
          Σ_prop_path (λ x. hlevel le_prop)
            (let (p, l) = components-pack f.0.0 f.0.1 f.1.0 f.1.1 in λ i. (p i, l i));
    } in
    (iso_to_equiv iso).1
