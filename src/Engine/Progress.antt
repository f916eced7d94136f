-- ===== src/Engine/Progress.antt =====
-- What pulling changesets changes, step by step: the signals, the marks and the rows' timestamps.
use native.Mathlib.Nat.{le_trans, le_refl}
use qsqlite_sync_engine.Prelude.{
  ℕ, ℤ, ltb_ℤ, ◌+◌, ◌≤◌, ◌≡◌, inl, inr, refl, sym, ap, ◌∙◌, Bool, true, false, ◌||◌, some, List, [],
  ◌∷◌, ◌++◌, append_assoc, append-nil, arith, All, length, Bool-cases,
}
use qsqlite_sync_engine.Text.{QString, str_eq}
use qsqlite_sync_engine.Qt.{Qt}
use qsqlite_sync_engine.Filename.{ChangesetInfo}
use qsqlite_sync_engine.Sqlite.{Bytes, Tables, Sqlite, select_row_hlc, insert_applied}
use qsqlite_sync_engine.Metadata.{has_applied, stored_hlc, mark_changeset_applied}
use qsqlite_sync_engine.Metadata.Laws.{has_applied-mark}
use qsqlite_sync_engine.Conflict.{handler}
use qsqlite_sync_engine.Database.{Outcome, is_empty, apply_changeset}
use qsqlite_sync_engine.Database.Monotone.{KeepsBookkeeping, IsOrdinary, apply_changeset-Grows}
use qsqlite_sync_engine.Engine.Ordinary.{OrdinaryFiles, now}
use qsqlite_sync_engine.LogCapture.{Warning}
use qsqlite_sync_engine.Transport.{Transport}
use qsqlite_sync_engine.Engine.{
  SyncEngine, SyncError, Signal, changeset_applied, sync_error_occurred, sync_completed, emit,
  with_db, with_tables, clock_receive,
}
use qsqlite_sync_engine.Engine.Pull.{Step, apply_one_changeset, apply_data, conclude}

-- the names in the signals `changesetApplied`
abbrev pub applied_names : List Signal → List QString
applied_names [] = []
applied_names (changeset_applied name ∷ signals) = name ∷ applied_names signals
applied_names (sync_error_occurred error message ∷ signals) = applied_names signals
applied_names (sync_completed n ∷ signals) = applied_names signals

abbrev pub contains : QString → List QString → Bool
contains id [] = false
contains id (name ∷ names) = str_eq name id || contains id names

pub applied_names-append :
    (a b : List Signal) → applied_names (a ++ b) ≡ applied_names a ++ applied_names b
applied_names-append [] b = refl
applied_names-append (changeset_applied name ∷ a) b = ap (λ t. name ∷ t) (applied_names-append a b)
applied_names-append (sync_error_occurred error message ∷ a) b = applied_names-append a b
applied_names-append (sync_completed n ∷ a) b = applied_names-append a b

pub contains-append :
    (id : QString) (a b : List QString) → contains id (a ++ b) ≡ (contains id a || contains id b)
contains-append id [] b = refl
contains-append id (name ∷ a) b = ground (arith, contains-append id a b)

-- From `e` to `e'` the changesets `names` were applied: each was announced and marked, and no
-- other; the rows' timestamps only grew.
pub record Progress {U S T : Type 0} (e e' : SyncEngine U S T) (names : List QString) : Type 0 where
  pub announced : applied_names e'.signals ≡ applied_names e.signals ++ names
  pub marked :
      (id : QString)
      → has_applied id e'.db.tables.applied
        ≡ (has_applied id e.db.tables.applied || contains id names)
  pub rows :
      (table : QString) (rowid : ℤ)
      → stored_hlc table rowid e.db.tables.row_hlcs ≤ stored_hlc table rowid e'.db.tables.row_hlcs
  pub version : e'.current_schema_version ≡ e.current_schema_version

false-or : (b : Bool) → b ≡ (b || false)
false-or true = refl
false-or false = refl

module _ {U S T : Type 0} where
  -- a step that announces nothing, marks nothing and keeps the rows
  pub Progress-quiet :
      (e e' : SyncEngine U S T)
      → applied_names e'.signals ≡ applied_names e.signals
      → e'.db.tables ≡ e.db.tables
      → e'.current_schema_version ≡ e.current_schema_version
      → Progress e e' []
  Progress-quiet e e' s t v = record {
    announced = rw append-nil s;
    marked = λ id. rw t (false-or (has_applied id e.db.tables.applied));
    rows = λ table rowid. rw t (le_refl _);
    version = v;
  }

  pub Progress-trans :
      {a b c : SyncEngine U S T} {ns ms : List QString}
      → Progress a b ns
      → Progress b c ms
      → Progress a c (ns ++ ms)
  Progress-trans {a} {b} {c} {ns} {ms} p q = record {
    announced =
        q.announced ∙ ap (λ t. t ++ ms) p.announced ∙ append_assoc (applied_names a.signals) ns ms;
    marked = λ id. ground (arith, p.marked id, q.marked id, contains-append id ns ms);
    rows = λ table rowid. le_trans (p.rows table rowid) (q.rows table rowid);
    version = q.version ∙ p.version;
  }

module _ {U S T : Type 0} where
  pub error-Progress :
      (e : SyncEngine U S T) (error : SyncError) (message : QString)
      → Progress e (emit (sync_error_occurred error message) e) []
  error-Progress e error message =
      Progress-quiet e _
        (applied_names-append e.signals (sync_error_occurred error message ∷ [])
          ∙ append-nil (applied_names e.signals))
        refl refl

-- What the proofs below assume of SQLite: the statements on the bookkeeping tables run, no table is
-- written that a changeset does not name, and a run that fails is rolled back.
pub record BooksRun {U S : Type 0} (sqlite : Sqlite U S) : Type 0 where
  pub selects : (t : Tables U) → sqlite.runs select_row_hlc t ≡ true
  pub inserts : (t : Tables U) → sqlite.runs insert_applied t ≡ true
  pub keeps : KeepsBookkeeping sqlite

-- What one changeset leads to: nothing is applied, or it is, under its name.
pub record Stepped {U S T : Type 0} (info : ChangesetInfo) (applied : ℕ) (e : SyncEngine U S T)
    (s : Step U S T) : Type 0 where
  pub names : List QString
  pub progress : Progress e s.engine names
  pub counted : s.applied ≡ applied + length names
  pub allowed :
      All
        (λ n. (n ≡ info.filename) × (ltb_ℤ e.current_schema_version info.schema_version ≡ false))
        names

module _ {U S T : Type 0} where
  Stepped-after :
      {info : ChangesetInfo} {applied : ℕ} {e e' : SyncEngine U S T} {s : Step U S T}
      → Progress e e' []
      → Stepped info applied e' s
      → Stepped info applied e s
  Stepped-after {info} {applied} {e} {e'} p s = record {
    names = s.names;
    progress = Progress-trans p s.progress;
    counted = s.counted;
    allowed = rw (← p.version) s.allowed;
  }

  Stepped-quiet :
      (info : ChangesetInfo) (applied : ℕ) (e : SyncEngine U S T) (s : Step U S T)
      → Progress e s.engine []
      → s.applied ≡ applied
      → Stepped info applied e s
  Stepped-quiet info applied e s p h = record {
    names = [];
    progress = p;
    counted = omega arith;
    allowed = tt;
  }

module _ {U S T : Type 0} (qt : Qt) (sqlite : Sqlite U S) (transport : Transport T) (wall : ℕ → ℕ)
    (books : BooksRun sqlite) where
  mark-Progress :
      (info : ChangesetInfo) (e : SyncEngine U S T)
      → Progress e
          (emit (changeset_applied info.filename) (
            with_tables
              (mark_changeset_applied sqlite e.db.client_identifier info.filename info.hlc
                e.db.tables).1
              e))
          (info.filename ∷ [])
  mark-Progress info e = record {
    announced = applied_names-append e.signals (changeset_applied info.filename ∷ []);
    marked = λ id. ground (
      arith,
      has_applied-mark sqlite e.db.client_identifier info.filename id info.hlc e.db.tables
          (books.inserts e.db.tables),
    );
    rows = λ table rowid. unfold mark_changeset_applied in ground arith;
    version = refl;
  }

  conclude-Stepped :
      (info : ChangesetInfo) (applied : ℕ) (outcome : Outcome) (e : SyncEngine U S T)
      → ltb_ℤ e.current_schema_version info.schema_version ≡ false
      → Stepped info applied e (conclude qt sqlite transport wall info applied outcome e)
  unfolding conclude
  conclude-Stepped info applied outcome e h = by_outcome outcome.success outcome.warnings
    where
      by_outcome :
          (success : Bool) (ws : List Warning)
          → Stepped info applied e (
              conclude qt sqlite transport wall info applied
                (record { success = success; warnings = ws })
                e)
      by_outcome true ws = record {
        names = info.filename ∷ [];
        progress = mark-Progress info e;
        counted = refl;
        allowed = ((refl, h), tt);
      }
      by_outcome false [] = record {
        names = [];
        progress = error-Progress e _ _;
        counted = omega arith;
        allowed = tt;
      }
      by_outcome false (w ∷ ws) = record {
        names = [];
        progress = Progress-quiet e e refl refl refl;
        counted = omega arith;
        allowed = tt;
      }

  -- reading the clock and applying a changeset, before anything is marked
  applied-Progress :
      (info : ChangesetInfo) (changeset : Bytes) (e : SyncEngine U S T)
      → IsOrdinary sqlite changeset
      → (let e' = clock_receive wall info.hlc e in
          let resolver = handler sqlite e'.db.client_identifier info.hlc info.client_id in
          Progress e (with_db (apply_changeset sqlite changeset (some resolver) e'.db).1 e') [])
  unfolding clock_receive
  applied-Progress info changeset e ordinary =
      let e' = clock_receive wall info.hlc e in
      let grows =
        apply_changeset-Grows sqlite books.selects e'.db.client_identifier info.hlc info.client_id
          changeset e'.db books.keeps ordinary in
      record {
        announced = sym (append-nil (applied_names e.signals));
        marked = λ id. rw grows.marks (false-or (has_applied id e.db.tables.applied));
        rows = grows.rows;
        version = refl;
      }

  apply_data-Stepped :
      (info : ChangesetInfo) (applied : ℕ) (changeset : Bytes) (e : SyncEngine U S T)
      → IsOrdinary sqlite changeset
      → ltb_ℤ e.current_schema_version info.schema_version ≡ false
      → Stepped info applied e (apply_data qt sqlite transport wall info applied changeset e)
  unfolding apply_data
  apply_data-Stepped info applied changeset e ordinary h =
      let e' = clock_receive wall info.hlc e in
      let resolver = handler sqlite e'.db.client_identifier info.hlc info.client_id in
      let (outcome, db) = apply_changeset sqlite changeset (some resolver) e'.db in
      Stepped-after (applied-Progress info changeset e ordinary)
        (conclude-Stepped info applied outcome (with_db db e') (unfold clock_receive in h))

  -- Each step of `sync` is such a step.
  pub apply_one_changeset-Stepped :
      (info : ChangesetInfo) (applied : ℕ) (e : SyncEngine U S T)
      → OrdinaryFiles sqlite transport e.transport
      → Stepped info applied e (apply_one_changeset qt sqlite transport wall info applied e)
  unfolding apply_one_changeset
  apply_one_changeset-Stepped info applied e ordinary =
      elim (Bool-cases (ltb_ℤ e.current_schema_version info.schema_version)) [
        | inl newer ↦ rw newer (Stepped-quiet info applied e _ (error-Progress e _ _) refl)
        | inr allowed ↦
            rw allowed
              (elim (Bool-cases (is_empty (transport.read_changeset info.filename e.transport).0)) [
                | inl empty ↦
                    rw empty
                      (Stepped-quiet info applied e _ (Progress-quiet e _ refl refl refl) refl)
                | inr full ↦ rw full (
                    Stepped-after
                      (Progress-quiet e
                        (record e {
                          manager = record e.manager {
                            transport = (transport.read_changeset info.filename e.transport).1;
                          };
                        })
                        refl refl refl)
                      (apply_data-Stepped info applied
                        (transport.read_changeset info.filename e.transport).0 _
                        (ordinary e.transport now info.filename) allowed))
              ])
      ]
