-- ===== src/Conflict/LastWriter.antt =====
-- Who wins a conflict, and what is recorded for the row.
use Prim.Native.Nat.{max}
use qsqlite_sync_engine.Prelude.{ℕ, ℤ, eq_ℤ_iff, ◌<◌, ◌≡◌, ◌≢◌, ◌⊎◌, ◌↔◌, true, false, some, arith}
use qsqlite_sync_engine.Text.{
  QString, str_eq_refl, str_lt, str_lt-asymm, str_lt-connex, starts_with,
}
use qsqlite_sync_engine.Sqlite.{
  Tables, Sqlite, ConflictType, changed_data, existing_row, replace_row_hlc, select_row_hlc,
}
use qsqlite_sync_engine.Metadata.{update_row_hlc, get_row_hlc, stored_hlc}
use qsqlite_sync_engine.Metadata.Laws.{stored_hlc-update}
use qsqlite_sync_engine.Conflict.{ConflictAction, replace, skip, resolve, handler, sync_prefix}

-- the incoming change is above (hlc, client), in lexicographic order
abbrev pub Wins : ℕ → QString → ℕ → QString → Type 0
Wins hlc client hlc' client' = (hlc' < hlc) ⊎ ((hlc' ≡ hlc) × (str_lt client' client ≡ true))

module _ {U S : Type 0} (sqlite : Sqlite U S) where
  -- the two outcomes of a conflict
  abbrev pub Decided :
      QString → QString → QString → ℕ → ℤ → Tables U → ConflictAction × Tables U → Type 0
  Decided local_client client table hlc rowid t outcome =
      (Wins hlc client (get_row_hlc sqlite table rowid t) local_client
        × (outcome ≡ (replace, (update_row_hlc sqlite table rowid hlc client t).1)))
      ⊎ ((¬ Wins hlc client (get_row_hlc sqlite table rowid t) local_client)
          × (outcome ≡ (skip, t)))

  pub resolve_decides :
      (local_client client table : QString) (hlc : ℕ) (rowid : ℤ) (t : Tables U)
      → Decided local_client client table hlc rowid t
          (resolve sqlite local_client hlc client table rowid t)
  unfolding resolve
  resolve_decides local_client client table hlc rowid t = ground arith

  handler-resolve :
      (type : ConflictType) (local_client client table : QString) (hlc : ℕ) (rowid : ℤ)
      (t : Tables U)
      → (type ≡ changed_data) ⊎ (type ≡ existing_row)
      → starts_with table sync_prefix ≡ false
      → handler sqlite local_client hlc client type table (some rowid) t
        ≡ resolve sqlite local_client hlc client table rowid t
  unfolding handler
  handler-resolve type local_client client table hlc rowid t h k = ground arith

  -- On a DATA or CONFLICT conflict of an application table, either the pair of incoming timestamp and
  -- client is above the pair of the recorded timestamp and this client's identifier, and the row is
  -- replaced and the incoming pair recorded for it, or it is not, and the change is skipped and
  -- nothing is written.
  pub handler_decides :
      (type : ConflictType) (local_client client table : QString) (hlc : ℕ) (rowid : ℤ)
      (t : Tables U)
      → (type ≡ changed_data) ⊎ (type ≡ existing_row)
      → starts_with table sync_prefix ≡ false
      → Decided local_client client table hlc rowid t
          (handler sqlite local_client hlc client type table (some rowid) t)
  handler_decides type local_client client table hlc rowid t h k =
      rw (handler-resolve type local_client client table hlc rowid t h k)
        (resolve_decides local_client client table hlc rowid t)

  resolve-max :
      (local_client client table : QString) (hlc : ℕ) (rowid : ℤ) (t : Tables U)
      → sqlite.runs select_row_hlc t ≡ true
      → sqlite.runs replace_row_hlc t ≡ true
      → stored_hlc table rowid (resolve sqlite local_client hlc client table rowid t).1.row_hlcs
        ≡ max hlc (stored_hlc table rowid t.row_hlcs)
  unfolding resolve get_row_hlc
  resolve-max local_client client table hlc rowid t h k = ground (
    arith,
    stored_hlc-update sqlite table table rowid rowid hlc client t k,
    str_eq_refl table,
    eq_ℤ_iff rowid rowid,
  )

  -- After the conflict the later of the two timestamps is recorded for the row, whoever won.
  pub handler-max :
      (type : ConflictType) (local_client client table : QString) (hlc : ℕ) (rowid : ℤ)
      (t : Tables U)
      → (type ≡ changed_data) ⊎ (type ≡ existing_row)
      → starts_with table sync_prefix ≡ false
      → sqlite.runs select_row_hlc t ≡ true
      → sqlite.runs replace_row_hlc t ≡ true
      → stored_hlc table rowid
          (handler sqlite local_client hlc client type table (some rowid) t).1.row_hlcs
        ≡ max hlc (stored_hlc table rowid t.row_hlcs)
  handler-max type local_client client table hlc rowid t h k hs hr =
      rw (handler-resolve type local_client client table hlc rowid t h k)
        (resolve-max local_client client table hlc rowid t hs hr)

  symmetric :
      (a b table : QString) (hlc_a hlc_b : ℕ) (rowid : ℤ) (t_a t_b : Tables U)
      → a ≢ b
      → get_row_hlc sqlite table rowid t_a ≡ hlc_a
      → get_row_hlc sqlite table rowid t_b ≡ hlc_b
      → ((resolve sqlite a hlc_b b table rowid t_a).0 ≡ replace)
        ↔ ((resolve sqlite b hlc_a a table rowid t_b).0 ≡ skip)
  unfolding resolve
  symmetric a b table hlc_a hlc_b rowid t_a t_b ne ea eb =
      ground (arith, str_lt-asymm a b, str_lt-connex a b)

  -- Two clients that have each recorded their own timestamp for a row, and get the other's change of
  -- it as a conflict, decide alike: exactly one of the two replaces its row.
  pub handler_symmetric :
      (type type' : ConflictType) (a b table : QString) (hlc_a hlc_b : ℕ) (rowid : ℤ)
      (t_a t_b : Tables U)
      → (type ≡ changed_data) ⊎ (type ≡ existing_row)
      → (type' ≡ changed_data) ⊎ (type' ≡ existing_row)
      → starts_with table sync_prefix ≡ false
      → a ≢ b
      → get_row_hlc sqlite table rowid t_a ≡ hlc_a
      → get_row_hlc sqlite table rowid t_b ≡ hlc_b
      → ((handler sqlite a hlc_b b type table (some rowid) t_a).0 ≡ replace)
        ↔ ((handler sqlite b hlc_a a type' table (some rowid) t_b).0 ≡ skip)
  handler_symmetric type type' a b table hlc_a hlc_b rowid t_a t_b h h' k ne ea eb =
      rw
        (
          handler-resolve type a b table hlc_b rowid t_a h k,
          handler-resolve type' b a table hlc_a rowid t_b h' k,
        )
        (symmetric a b table hlc_a hlc_b rowid t_a t_b ne ea eb)

  -- A conflict on a row for which no timestamp is recorded is won by every change with a timestamp
  -- above 0, however old it is.
  pub handler_unrecorded :
      (type : ConflictType) (local_client client table : QString) (hlc : ℕ) (rowid : ℤ)
      (t : Tables U)
      → (type ≡ changed_data) ⊎ (type ≡ existing_row)
      → starts_with table sync_prefix ≡ false
      → stored_hlc table rowid t.row_hlcs ≡ 0
      → 0 < hlc
      → (handler sqlite local_client hlc client type table (some rowid) t).0 ≡ replace
  handler_unrecorded type local_client client table hlc rowid t h k e pos_hlc =
      rw (handler-resolve type local_client client table hlc rowid t h k)
        (unfold get_row_hlc resolve in ground arith)

  -- At equal timestamps the rule compares the incoming client with the client that applies the
  -- change, so two clients on either side of the incoming one decide the same conflict differently.
  pub handler_tie_differs :
      (type : ConflictType) (low client high table : QString) (hlc : ℕ) (rowid : ℤ) (t : Tables U)
      → (type ≡ changed_data) ⊎ (type ≡ existing_row)
      → starts_with table sync_prefix ≡ false
      → get_row_hlc sqlite table rowid t ≡ hlc
      → str_lt low client ≡ true
      → str_lt client high ≡ true
      → ((handler sqlite low hlc client type table (some rowid) t).0 ≡ replace)
        × (handler sqlite high hlc client type table (some rowid) t ≡ (skip, t))
  handler_tie_differs type low client high table hlc rowid t h k e l r =
      rw
        (
          handler-resolve type low client table hlc rowid t h k,
          handler-resolve type high client table hlc rowid t h k,
        )
        (unfold resolve in (ground arith, ground (arith, str_lt-asymm client high)))
