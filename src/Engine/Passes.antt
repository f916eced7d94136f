-- ===== src/Engine/Passes.antt =====
-- The two passes of `sync`, and its end, as progress.
use qsqlite_sync_engine.Prelude.{
  ℕ, ℤ, ltb_ℤ, ◌+◌, ◌≡◌, refl, ◌∙◌, false, not, ◌&&◌, List, [], ◌∷◌, ◌++◌, map, arith, ltb, All,
  All-append, length, length-append, Bool-cases, inl, inr,
}
use qsqlite_sync_engine.Text.{QString}
use qsqlite_sync_engine.Qt.{Qt}
use qsqlite_sync_engine.Filename.{ChangesetInfo}
use qsqlite_sync_engine.Sqlite.{Sqlite}
use qsqlite_sync_engine.LogCapture.{Warning}
use qsqlite_sync_engine.Database.{is_empty}
use qsqlite_sync_engine.Transport.{Transport}
use qsqlite_sync_engine.Engine.{SyncEngine}
use qsqlite_sync_engine.Engine.Pull.{
  Step, DeferredItem, apply_one_changeset, emit_apply_error, emit_warnings,
}
use qsqlite_sync_engine.Engine.Sync.{Pass, defer_step, apply_pass, retry_pass, emit_apply_errors}
use qsqlite_sync_engine.Engine.Ordinary.{OrdinaryFiles, step-OrdinaryFiles}
use qsqlite_sync_engine.Engine.Progress.{
  Progress, Progress-quiet, Progress-trans, BooksRun, apply_one_changeset-Stepped, error-Progress,
}

-- the name of a changeset that the version allows has the property
abbrev pub Good : (QString → Type 0) → ℤ → ChangesetInfo → Type 0
Good P version info = ltb_ℤ version info.schema_version ≡ false → P info.filename

abbrev pub GoodItems : (QString → Type 0) → ℤ → List DeferredItem → Type 0
GoodItems P version = All (λ item. Good P version item.info)

pub record Passed {U S T : Type 0} (P : QString → Type 0) (version : ℤ) (p p' : Pass U S T)
    : Type 0 where
  pub names : List QString
  pub progress : Progress p.engine p'.engine names
  pub counted : p'.applied ≡ p.applied + length names
  pub allowed : All P names
  pub waiting : GoodItems P version p'.deferred

module _ (P : QString → Type 0) (version : ℤ) where
  allowed_names :
      (info : ChangesetInfo) (v : ℤ) (names : List QString)
      → v ≡ version
      → Good P version info
      → All (λ n. (n ≡ info.filename) × (ltb_ℤ v info.schema_version ≡ false)) names
      → All P names
  allowed_names info v [] e g h = tt
  allowed_names info v (n ∷ names) e g h =
      (rw h.0.0 (g (rw (← e) h.0.1)), allowed_names info v names e g h.1)

module _ {U S T : Type 0} (P : QString → Type 0) (version : ℤ) where
  Passed-here : (p : Pass U S T) → GoodItems P version p.deferred → Passed P version p p
  Passed-here p h = record {
    names = [];
    progress = Progress-quiet p.engine p.engine refl refl refl;
    counted = omega arith;
    allowed = tt;
    waiting = h;
  }

  pub Passed-trans :
      {p q r : Pass U S T} → Passed P version p q → Passed P version q r → Passed P version p r
  Passed-trans a b = record {
    names = a.names ++ b.names;
    progress = Progress-trans a.progress b.progress;
    counted = omega (arith, a.counted, b.counted, length-append a.names b.names);
    allowed = All-append P a.names b.names a.allowed b.allowed;
    waiting = b.waiting;
  }

  waiting_step :
      (info : ChangesetInfo) (s : Step U S T) (items : List DeferredItem)
      → Good P version info
      → GoodItems P version items
      → GoodItems P version (defer_step info s items).deferred
  unfolding defer_step
  waiting_step info s items g h = elim (Bool-cases s.handled) [
    | inl handled ↦ rw handled h
    | inr retry ↦ rw retry (All-append _ items _ h (g, tt))
  ]

module _ {U S T : Type 0} (qt : Qt) (sqlite : Sqlite U S) (transport : Transport T) (wall : ℕ → ℕ)
    (books : BooksRun sqlite) (P : QString → Type 0) (version : ℤ) where
  step-Passed :
      (info : ChangesetInfo) (p : Pass U S T)
      → OrdinaryFiles sqlite transport p.engine.transport
      → p.engine.current_schema_version ≡ version
      → Good P version info
      → GoodItems P version p.deferred
      → Passed P version p (
          defer_step info
            (apply_one_changeset qt sqlite transport wall info p.applied p.engine)
            p.deferred)
  unfolding defer_step
  step-Passed info p files e g h =
      let s = apply_one_changeset qt sqlite transport wall info p.applied p.engine in
      let stepped =
        apply_one_changeset-Stepped qt sqlite transport wall books info p.applied p.engine files in
      record {
        names = stepped.names;
        progress = stepped.progress;
        counted = stepped.counted;
        allowed =
            allowed_names P version info p.engine.current_schema_version stepped.names e g
              stepped.allowed;
        waiting = waiting_step P version info s p.deferred g h;
      }

  pub apply_pass-Passed :
      (infos : List ChangesetInfo) (p : Pass U S T)
      → OrdinaryFiles sqlite transport p.engine.transport
      → p.engine.current_schema_version ≡ version
      → All (Good P version) infos
      → GoodItems P version p.deferred
      → Passed P version p (apply_pass qt sqlite transport wall infos p)
  unfolding apply_pass
  apply_pass-Passed [] p files e g h = Passed-here P version p h
  apply_pass-Passed (info ∷ infos) p files e g h =
      let first = step-Passed info p files e g.0 h in
      Passed-trans P version first (
        apply_pass-Passed infos _
          (unfold defer_step in
            step-OrdinaryFiles qt sqlite transport wall info p.applied p.engine files)
          (first.progress.version ∙ e) g.1 first.waiting)

  items_infos :
      (items : List DeferredItem)
      → GoodItems P version items
      → All (Good P version) (map (λ (item : DeferredItem). item.info) items)
  items_infos [] h = tt
  items_infos (item ∷ items) h = (h.0, items_infos items h.1)

  pub retry_pass-Passed :
      (p : Pass U S T)
      → OrdinaryFiles sqlite transport p.engine.transport
      → p.engine.current_schema_version ≡ version
      → GoodItems P version p.deferred
      → Passed P version p (retry_pass qt sqlite transport wall p)
  unfolding retry_pass
  retry_pass-Passed p files e h = elim (Bool-cases (not (is_empty p.deferred) && ltb 0 p.applied)) [
    | inl again ↦ rw again (
        retried (
          apply_pass-Passed (map (λ (item : DeferredItem). item.info) p.deferred)
            (record p { deferred = [] }) files e (items_infos p.deferred h) tt))
    | inr over ↦ rw over (Passed-here P version p h)
  ]
    where
      retried :
          {q : Pass U S T} → Passed P version (record p { deferred = [] }) q → Passed P version p q
      retried r = record {
        names = r.names;
        progress = r.progress;
        counted = r.counted;
        allowed = r.allowed;
        waiting = r.waiting;
      }

module _ {U S T : Type 0} (qt : Qt) (sqlite : Sqlite U S) (transport : Transport T)
    (wall : ℕ → ℕ) where
  emit_warnings-Progress :
      (info : ChangesetInfo) (ws : List Warning) (e : SyncEngine U S T)
      → Progress e (emit_warnings qt sqlite transport wall info ws e) []
  unfolding emit_warnings
  emit_warnings-Progress info [] e = Progress-quiet e e refl refl refl
  emit_warnings-Progress info (w ∷ ws) e =
      Progress-trans (error-Progress e _ _) (emit_warnings-Progress info ws _)

  emit_apply_error-Progress :
      (item : DeferredItem) (e : SyncEngine U S T)
      → Progress e (emit_apply_error qt sqlite transport wall item e) []
  unfolding emit_apply_error
  emit_apply_error-Progress item e = elim (Bool-cases (is_empty item.warnings)) [
    | inl general ↦ rw general (error-Progress e _ _)
    | inr schema ↦ rw schema (emit_warnings-Progress item.info item.warnings e)
  ]

  pub emit_apply_errors-Progress :
      (items : List DeferredItem) (e : SyncEngine U S T)
      → Progress e (emit_apply_errors qt sqlite transport wall items e) []
  unfolding emit_apply_errors
  emit_apply_errors-Progress [] e = Progress-quiet e e refl refl refl
  emit_apply_errors-Progress (item ∷ items) e =
      Progress-trans (emit_apply_error-Progress item e) (emit_apply_errors-Progress items _)
