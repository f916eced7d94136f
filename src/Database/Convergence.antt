-- ===== src/Database/Convergence.antt =====
-- Clients that meet the same changes of a row as conflicts, in whatever order and however often.
use qsqlite_sync_engine.Prelude.{
  ℤ, eq_ℤ_iff, ◌≡◌, inl, inr, refl, sym, ◌∙◌, true, false, some, List, [], ◌∷◌, arith, All,
}
use qsqlite_sync_engine.Text.{QString, str_eq_refl, starts_with}
use qsqlite_sync_engine.Sqlite.{
  Tables, Sqlite, Apply, finish, conflict, changed_data, Reply, replace_row_hlc, select_row_hlc,
}
use qsqlite_sync_engine.Metadata.{update_row_hlc, get_row_hlc, stored_hlc}
use qsqlite_sync_engine.Metadata.Laws.{stored_hlc-update}
use qsqlite_sync_engine.Conflict.LastWriter.{handler_decides}
use qsqlite_sync_engine.Conflict.{replace, skip, handler, conflict_callback, sync_prefix}
use qsqlite_sync_engine.Database.Versions.{
  Version, Agree, IsWithin, later, latest, latest-In, latest-max, Agree-later,
}
use qsqlite_sync_engine.Database.{SyncableDatabase, is_empty, run_apply, apply_changeset}

-- what SQLite goes on to do after the reply of the conflict callback; an abort rolls back
abbrev pub answers :
    {U : Type 0} → Tables U → (Tables U → Tables U) → (Tables U → Tables U) → Reply → Apply U
answers before written kept Reply.replace = finish true written
answers before written kept Reply.omit = finish true kept
answers before written kept Reply.abort = finish false (λ t. before)

module _ {U S V : Type 0} (sqlite : Sqlite U S) (table : QString) (rowid : ℤ) (row : U → V) where
  -- SQLite meets the change as a DATA conflict on the row; it writes the row where it is told to
  -- replace it and leaves the row alone where it is told to omit the change.
  pub record MeetsRow (c : Version V) : Type 0 where
    pub written : Tables U → Tables U
    pub kept : Tables U → Tables U
    pub nonempty : is_empty c.changeset ≡ false
    pub steps :
        (t : Tables U)
        → sqlite.changeset_apply c.changeset t
          ≡ conflict changed_data (some table) (some rowid) (answers t written kept)
    pub written_row : (t : Tables U) → row (written t).user ≡ c.row
    pub written_hlcs : (t : Tables U) → (written t).row_hlcs ≡ t.row_hlcs
    pub kept_row : (t : Tables U) → row (kept t).user ≡ row t.user
    pub kept_hlcs : (t : Tables U) → (kept t).row_hlcs ≡ t.row_hlcs

  -- the changes applied one after the other, as a client does it
  abbrev pub receive_all : List (Version V) → SyncableDatabase U S → SyncableDatabase U S
  receive_all [] db = db
  receive_all (c ∷ cs) db =
      let resolver = handler sqlite db.client_identifier c.hlc c.client in
      receive_all cs (apply_changeset sqlite c.changeset (some resolver) db).1

  -- The open database holds this change of the row, with its timestamp.
  pub record Holds (db : SyncableDatabase U S) (x : Version V) : Type 0 where
    pub opened : db.handle ≡ true
    pub stamped : stored_hlc table rowid db.tables.row_hlcs ≡ x.hlc
    pub held : row db.tables.user ≡ x.row

  module _ (selects : (t : Tables U) → sqlite.runs select_row_hlc t ≡ true)
      (replaces : (t : Tables U) → sqlite.runs replace_row_hlc t ≡ true)
      (foreign : starts_with table sync_prefix ≡ false) where
    -- the database after one change
    abbrev pub received : Version V → SyncableDatabase U S → SyncableDatabase U S
    received c db =
        let resolver = handler sqlite db.client_identifier c.hlc c.client in
        (apply_changeset sqlite c.changeset (some resolver) db).1

    replaced :
        (c : Version V) (db : SyncableDatabase U S) (meets : MeetsRow c) (t' : Tables U)
        → db.handle ≡ true
        → handler sqlite db.client_identifier c.hlc c.client changed_data table
            (some rowid)
            db.tables
          ≡ (replace, t')
        → received c db ≡ record db { tables = meets.written t' }
    unfolding apply_changeset run_apply conflict_callback
    replaced c db meets t' opened e =
        ground (arith, opened, meets.nonempty, meets.steps db.tables, e)

    skipped :
        (c : Version V) (db : SyncableDatabase U S) (meets : MeetsRow c)
        → db.handle ≡ true
        → handler sqlite db.client_identifier c.hlc c.client changed_data table
            (some rowid)
            db.tables
          ≡ (skip, db.tables)
        → received c db ≡ record db { tables = meets.kept db.tables }
    unfolding apply_changeset run_apply conflict_callback
    skipped c db meets opened e = ground (arith, opened, meets.nonempty, meets.steps db.tables, e)

    stamped_now :
        (c : Version V) (t : Tables U)
        → stored_hlc table rowid (update_row_hlc sqlite table rowid c.hlc c.client t).1.row_hlcs
          ≡ c.hlc
    stamped_now c t = ground (
      arith,
      stored_hlc-update sqlite table table rowid rowid c.hlc c.client t (replaces t),
      str_eq_refl table,
      eq_ℤ_iff rowid rowid,
    )

    recorded : (t : Tables U) → get_row_hlc sqlite table rowid t ≡ stored_hlc table rowid t.row_hlcs
    unfolding get_row_hlc
    recorded t = rw selects refl

    -- After a change the database holds the later one of the two.
    pub received-Holds :
        (c x : Version V) (db : SyncableDatabase U S)
        → MeetsRow c
        → (x.hlc ≡ c.hlc → c.row ≡ x.row)
        → Holds db x
        → Holds (received c db) (later x c)
    unfolding later
    received-Holds c x db meets tie h =
        let t' = (update_row_hlc sqlite table rowid c.hlc c.client db.tables).1 in
        let same = recorded db.tables ∙ h.stamped in
        elim (handler_decides sqlite changed_data db.client_identifier c.client table c.hlc rowid
          db.tables (inl refl) foreign) [
            | inl (wins, e) ↦ rw (replaced c db meets t' h.opened e) (record {
              opened = h.opened;
              stamped = rw meets.written_hlcs (ground (arith, stamped_now c db.tables, same));
              held = rw meets.written_row (ground (arith, same));
            })
            | inr (loses, e) ↦ rw (skipped c db meets h.opened e) (record {
              opened = h.opened;
              stamped = rw meets.kept_hlcs (ground (arith, same));
              held = rw meets.kept_row (ground (arith, same));
            })
          ]

    receive_all-Holds :
        (cs : List (Version V)) (x : Version V) (db : SyncableDatabase U S)
        → All MeetsRow cs
        → Agree (x ∷ cs)
        → Holds db x
        → Holds (receive_all cs db) (latest x cs)
    unfolding latest
    receive_all-Holds [] x db meets agree h = h
    receive_all-Holds (c ∷ cs) x db meets agree h =
        receive_all-Holds cs (later x c) (received c db) meets.1 (Agree-later x c cs agree)
          (received-Holds c x db meets.0 (λ tie. agree c x (inr (inl refl)) (inl refl) (sym tie)) h)

    -- Two databases that hold the latest one of the same changes hold the same row and timestamp.
    pub same_latest :
        (x y : Version V) (xs ys : List (Version V)) (a b : SyncableDatabase U S)
        → Holds a (latest x xs)
        → Holds b (latest y ys)
        → Agree (x ∷ xs)
        → IsWithin (x ∷ xs) (y ∷ ys)
        → IsWithin (y ∷ ys) (x ∷ xs)
        → (row a.tables.user ≡ row b.tables.user)
          × (stored_hlc table rowid a.tables.row_hlcs ≡ stored_hlc table rowid b.tables.row_hlcs)
    same_latest x y xs ys a b ha hb agree left right =
        let p = latest x xs in
        let q = latest y ys in
        let q_in = right q (latest-In y ys) in
        let e : p.hlc ≡ q.hlc =
          omega (arith, latest-max y ys p (left p (latest-In x xs)), latest-max x xs q q_in) in
        (ha.held ∙ agree p q (latest-In x xs) q_in e ∙ sym hb.held, ha.stamped ∙ e ∙ sym hb.stamped)

    -- Two clients that hold a change of a row each, with its timestamp, and get changes of that row
    -- as conflicts, end with the same row and the same timestamp for it, in whatever order and however
    -- often each of them gets a change: if the changes that the one has seen are those that the other
    -- has seen, and changes with one timestamp write the same row.
    pub clients_converge :
        (x y : Version V) (xs ys : List (Version V)) (a b : SyncableDatabase U S)
        → Holds a x
        → Holds b y
        → All MeetsRow xs
        → All MeetsRow ys
        → Agree (x ∷ xs)
        → IsWithin (x ∷ xs) (y ∷ ys)
        → IsWithin (y ∷ ys) (x ∷ xs)
        → (row (receive_all xs a).tables.user ≡ row (receive_all ys b).tables.user)
          × (stored_hlc table rowid (receive_all xs a).tables.row_hlcs
              ≡ stored_hlc table rowid (receive_all ys b).tables.row_hlcs)
    clients_converge x y xs ys a b ha hb mx my agree left right =
        let agree' : Agree (y ∷ ys) = λ c d mc md. agree c d (right c mc) (right d md) in
        same_latest x y xs ys (receive_all xs a) (receive_all ys b)
          (receive_all-Holds xs x a mx agree ha) (receive_all-Holds ys y b my agree' hb) agree left
          right
