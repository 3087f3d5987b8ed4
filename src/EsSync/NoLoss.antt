-- ===== src/EsSync/NoLoss.antt =====
-- A pass of the retry worker loses no event, whichever of its calls fail.
use comment_project.Common.{
  ℕ, ◌≡◌, ◌⊎◌, subst, refl, inl, inr, Bool, true, false, [], ◌∷◌, All, Bool-cases, leb, take,
  All-take,
}
use comment_project.Common.Dict.{Dict, nat_eq, All-found}
use comment_project.EsSync.Index.{
  Elastic, IsElastic, Event, Processed, synced, row_error, process_row,
}
use comment_project.EsSync.Retry.{Codec, RetryRow, delete_retry, retry_batch_size}
use comment_project.EsSync.Handlers.{Sync}
use comment_project.EsSync.Saved.{RowOf, IsTables, Saved}
use comment_project.EsSync.Binlog.{Binlog}
use comment_project.EsSync.Canal.{IsCanal, IsCodec}
use comment_project.EsSync.Lossless.{Indexed, Landed, IsSound, Advances, row-Advances}
use comment_project.EsSync.Passes.{
  RetryCalls, after_attempt, process_retry_row, process_rows, due, process_retries,
}
use comment_project.EsSync.Retried.{
  Same, Same-refl, RowOf-Same, reread_row, retry_event-event, event_unique, delete-IsTables,
  delete-Saved,
}
use comment_project.EsSync.Worker.{executed-either, Snap, delete-Snap, after_failure-Retains}

All-due : (P : ℕ × RetryRow → Type 0) (now : ℕ) (m : Dict ℕ RetryRow) → All P m → All P (due now m)
All-due P now [] h = tt
All-due P now ((id, row) ∷ m) h = elim (Bool-cases (leb row.next_retry_at now)) [
  | inl ready ↦ rw ready (h.0, All-due P now m h.1)
  | inr later ↦ rw later (All-due P now m h.1)
]

module _ (e : Elastic) (law : IsElastic e) (files : Binlog) (codec : Codec)
    (reads : IsCodec codec) where
  -- The state stays sound, and keeps every event and every selected row.
  pub record Keeps (s r : Sync e) : Type 0 where
    pub sound : IsSound e law files codec r
    pub landed :
        (event : Event)
        → IsCanal files event
        → Landed e law files codec event s
        → Landed e law files codec event r
    pub snap : (id : ℕ) (row : RetryRow) → Snap id row s.tables → Snap id row r.tables

  pub Keeps-trans : (s r q : Sync e) → Keeps s r → Keeps r q → Keeps s q
  Keeps-trans s r q a b = record {
    sound = b.sound;
    landed = λ event c h. b.landed event c (a.landed event c h);
    snap = λ id row h. b.snap id row (a.snap id row h);
  }

  pub same-Keeps : (s : Sync e) → IsSound e law files codec s → Keeps s s
  same-Keeps s w = record { sound = w; landed = λ event c h. h; snap = λ id row h. h }

  -- The rows that a pass has selected.
  abbrev pub Selected : Sync e → ℕ × RetryRow → Type 0
  Selected s (id, row) =
      Snap id row s.tables × ((event : Event) × RowOf codec event row × IsCanal files event)

  after_attempt-Keeps :
      (calls : RetryCalls) (id : ℕ) (row : RetryRow) (event : Event) (r : Processed × e.State)
      (s : Sync e)
      → IsSound e law files codec s
      → Snap id row s.tables
      → RowOf codec event row
      → IsCanal files event
      → Advances e law files s.docs r.1
      → (r.0 ≡ synced → Indexed e law files event r.1)
      → Keeps s (after_attempt e codec calls id row r s.tables).1
  unfolding after_attempt
  after_attempt-Keeps calls id row event (row_error error, docs) s w snap of canal a h =
      let kept =
        after_failure-Retains files codec reads calls id row error s.tables w.tables snap in
      record {
        sound = record { inv = a.inv; tables = kept.tables };
        landed = λ other c l. elim l [
          | inl d ↦ inl (a.keeps other d)
          | inr saved ↦ inr (kept.saved other saved)
        ];
        snap = kept.snap;
      }
  after_attempt-Keeps calls id row event (synced, docs) s w snap of canal a h = record {
    sound = record {
      inv = a.inv;
      tables =
          executed-either (IsTables codec (IsCanal files)) calls.statement s.tables
            (delete_retry id s.tables) w.tables
            (delete-IsTables files codec reads id s.tables w.tables);
    };
    landed = λ other c l. elim l [
      | inl d ↦ inl (a.keeps other d)
      | inr saved ↦
          executed-either (λ t. Indexed e law files other docs ⊎ Saved codec other t)
            calls.statement s.tables (delete_retry id s.tables) (inr saved)
            (elim (delete-Saved files codec reads id s.tables other saved) [
              | inl still ↦ inr still
              | inr (now, there, of_other) ↦
                  let same : event ≡ other =
                    event_unique files codec reads event other row of
                      (RowOf-Same files codec reads other now row (snap now there) of_other) canal
                      c in
                  inl (subst (λ (ev : Event). Indexed e law files ev docs) same (h refl))
            ])
    ];
    snap = λ j r before.
        executed-either (Snap j r) calls.statement s.tables (delete_retry id s.tables) before
          (delete-Snap files codec reads id s.tables j r before);
  }

  pub process_retry_row-Keeps :
      (calls : RetryCalls) (id : ℕ) (row : RetryRow) (s : Sync e)
      → IsSound e law files codec s
      → Selected s (id, row)
      → Keeps s (process_retry_row e codec calls id row s).1
  unfolding process_retry_row
  process_retry_row-Keeps calls id row s w h =
      let snap = h.0 in
      let (event, of, canal) = h.1 in
      let this = retry_event-event files codec reads event row of canal in
      let (a, i) =
        row-Advances e law files calls.row event s.docs canal.positioned canal.logged w.inv in
      rw (process_retry_row, reread_row files codec reads event row of canal, this)
        (after_attempt-Keeps calls id row event (process_row e calls.row event s.docs) s w snap of
          canal a i)

  All-Keeps :
      (s r : Sync e) (rows : Dict ℕ RetryRow)
      → Keeps s r
      → All (Selected s) rows
      → All (Selected r) rows
  All-Keeps s r [] k h = tt
  All-Keeps s r ((id, row) ∷ rows) k h = ((k.snap id row h.0.0, h.0.1), All-Keeps s r rows k h.1)

  process_rows-Keeps :
      (calls : ℕ → RetryCalls) (rows : Dict ℕ RetryRow) (s : Sync e)
      → IsSound e law files codec s
      → All (Selected s) rows
      → Keeps s (process_rows e codec calls rows s).1
  unfolding process_rows
  process_rows-Keeps calls [] s w h = same-Keeps s w
  process_rows-Keeps calls ((id, row) ∷ rows) s w h =
      let first = process_retry_row-Keeps (calls id) id row s w h.0 in
      let after = (process_retry_row e codec (calls id) id row s).1 in
      elim (Bool-cases (process_retry_row e codec (calls id) id row s).0) [
        | inr stopped ↦ rw stopped first
        | inl done ↦ rw done (
            Keeps-trans s after (process_rows e codec calls rows after).1 first
              (process_rows-Keeps calls rows after first.sound (All-Keeps s after rows first h.1)))
      ]

  All-Selected :
      (now : ℕ) (s : Sync e)
      → IsSound e law files codec s
      → All (Selected s) (take retry_batch_size (due now s.tables.es_sync_retry))
  All-Selected now s w =
      let rows = s.tables.es_sync_retry in
      All-take (Selected s) retry_batch_size (due now rows) (
        All-due (Selected s) now rows (
          All-found (Selected s) rows w.tables.distinct λ id row found. (
            (λ present there.
                subst (λ r. Same r row) (cc (there, found)) (Same-refl files codec reads row)),
            w.tables.rows id row found,
          )))

  -- From a sound state of the index and the tables, whatever calls of a pass of the retry worker
  -- fail, the state stays sound; and each change of the binlog that Canal delivers and that stood, or
  -- had a later change of its document stand, in the index, or that was in the tables, does so after
  -- the pass. In the binlog a document has at most one change at a position.
  pub process_retries-lossless :
      (tables_made selected : Bool) (now : ℕ) (calls : ℕ → RetryCalls) (s : Sync e)
      → IsSound e law files codec s
      → IsSound e law files codec (process_retries e codec tables_made selected now calls s).1
        × ((event : Event)
            → IsCanal files event
            → Landed e law files codec event s
            → Landed e law files codec event
                (process_retries e codec tables_made selected now calls s).1)
  unfolding process_retries
  process_retries-lossless false selected now calls s w = (w, λ event c h. h)
  process_retries-lossless true false now calls s w = (w, λ event c h. h)
  process_retries-lossless true true now calls s w =
      let k =
        process_rows-Keeps calls (take retry_batch_size (due now s.tables.es_sync_retry)) s w
          (All-Selected now s w) in
      (k.sound, k.landed)
