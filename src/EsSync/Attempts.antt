-- ===== src/EsSync/Attempts.antt =====
-- A row is tried three times at most: then its event is in the index, or in the tables.
use comment_project.Common.{
  ℕ, ◌+◌, ◌*◌, ◌≤◌, ◌<◌, ◌≡◌, ◌⊎◌, subst, inl, inr, Option, none, some, List, [], ◌∷◌, All, arith,
  Bool-cases, Option-cases, leb, length,
}
use comment_project.Common.Dict.{nat_eq, lookup, lookup-erase_self}
use comment_project.Common.Table.{lookup-adjust_self}
use comment_project.Common.Outcome.{answers}
use comment_project.EsSync.Index.{
  Elastic, IsElastic, Event, Processed, synced, row_error, RowError, process_row,
}
use comment_project.EsSync.Retry.{
  Codec, of_row, of_payload, RetryRow, Tables, insert_dlq, update_retry, delete_retry, with_count,
  retry_backoff_base, retry_max_attempts,
}
use comment_project.EsSync.Handlers.{Sync}
use comment_project.EsSync.Saved.{RowOf}
use comment_project.EsSync.Binlog.{Binlog}
use comment_project.EsSync.Canal.{IsCanal, IsCodec}
use comment_project.EsSync.Lossless.{Landed, IsSound}
use comment_project.EsSync.Passes.{
  RetryCalls, dlq_row, retry_event, move_to_dlq, after_failure, after_attempt, process_retry_row,
}
use comment_project.EsSync.Retried.{Same, Same-refl}
use comment_project.EsSync.NoLoss.{Keeps, same-Keeps, Keeps-trans, process_retry_row-Keeps}

-- The row has been tried that often, and will be tried again; or it is gone.
abbrev Tried : ℕ → ℕ → Tables → Type 0
Tried id n s =
    (lookup id s.es_sync_retry ≡ none)
    ⊎ ((row : RetryRow) × (lookup id s.es_sync_retry ≡ some row)
        × (n ≤ row.retry_count)
        × (row.retry_count < retry_max_attempts))

deleted : (id n : ℕ) (s : Tables) → Tried id n (delete_retry id s)
unfolding delete_retry
deleted id n s = inl (lookup-erase_self id s.es_sync_retry)

after_failure-Tried :
    (calls : RetryCalls) (id n : ℕ) (row : RetryRow) (error : RowError) (s : Tables)
    → calls.statement ≡ answers
    → lookup id s.es_sync_retry ≡ some row
    → n ≤ row.retry_count
    → Tried id (n + 1) (after_failure calls id row error s).1
unfolding after_failure move_to_dlq update_retry
after_failure-Tried calls id n row error s h there up =
    elim (Bool-cases (leb retry_max_attempts (row.retry_count + 1))) [
      | inl last ↦ rw (last, h) (deleted id (n + 1) (insert_dlq (dlq_row row (of_row error)) s))
      | inr more ↦
          let f =
            with_count (row.retry_count + 1)
              (calls.clock + retry_backoff_base * (row.retry_count + 2)) (of_row error) in
          rw (more, h)
            (inr (
              f row,
              lookup-adjust_self id f row s.es_sync_retry there,
              omega (arith, up),
              ground (arith, more),
            ))
    ]

module _ (e : Elastic) (codec : Codec) where
  after_attempt-Tried :
      (calls : RetryCalls) (id n : ℕ) (row : RetryRow) (r : Processed × e.State) (s : Tables)
      → calls.statement ≡ answers
      → lookup id s.es_sync_retry ≡ some row
      → n ≤ row.retry_count
      → Tried id (n + 1) (after_attempt e codec calls id row r s).1.tables
  unfolding after_attempt
  after_attempt-Tried calls id n row (synced, docs) s h there up = rw h (deleted id (n + 1) s)
  after_attempt-Tried calls id n row (row_error error, docs) s h there up =
      after_failure-Tried calls id n row error s h there up

  process_retry_row-Tried :
      (calls : RetryCalls) (id n : ℕ) (row : RetryRow) (s : Sync e)
      → calls.statement ≡ answers
      → lookup id s.tables.es_sync_retry ≡ some row
      → n ≤ row.retry_count
      → Tried id (n + 1) (process_retry_row e codec calls id row s).1.tables
  unfolding process_retry_row move_to_dlq
  process_retry_row-Tried calls id n row s h there up =
      elim (Option-cases (codec.unmarshal row.payload)) [
        | inl unread ↦
            rw (process_retry_row, unread, h)
              (deleted id (n + 1) (insert_dlq (dlq_row row of_payload) s.tables))
        | inr (p, read) ↦
            rw (process_retry_row, read)
              (after_attempt-Tried calls id n row
                (process_row e calls.row (retry_event row p) s.docs) s.tables h there up)
      ]

  abbrev try_row : RetryCalls → ℕ → Option RetryRow → Sync e → Sync e
  try_row calls id none s = s
  try_row calls id (some row) s = (process_retry_row e codec calls id row s).1

  -- The attempts at one row, in passes one after another.
  unfoldable pub attempts : List RetryCalls → ℕ → Sync e → Sync e
  attempts [] id s = s
  attempts (calls ∷ rest) id s =
      attempts rest id (try_row calls id (lookup id s.tables.es_sync_retry) s)

  try_row-Tried :
      (calls : RetryCalls) (id n : ℕ) (s : Sync e)
      → calls.statement ≡ answers
      → Tried id n s.tables
      → Tried id (n + 1) (try_row calls id (lookup id s.tables.es_sync_retry) s).tables
  try_row-Tried calls id n s h (inl gone) = rw (gone, try_row) (inl gone)
  try_row-Tried calls id n s h (inr (row, there, up, _)) =
      rw (there, try_row) (process_retry_row-Tried calls id n row s h there up)

  attempts-Tried :
      (calls : List RetryCalls) (id n : ℕ) (s : Sync e)
      → All (λ c. c.statement ≡ answers) calls
      → Tried id n s.tables
      → Tried id (n + length calls) (attempts calls id s).tables
  unfolding attempts
  attempts-Tried [] id n s h t = subst (λ k. Tried id k s.tables) (omega arith) t
  attempts-Tried (c ∷ calls) id n s h t =
      subst (λ k. Tried id k (attempts (c ∷ calls) id s).tables) (omega arith)
        (attempts-Tried calls id (n + 1) (try_row c id (lookup id s.tables.es_sync_retry) s) h.1
          (try_row-Tried c id n s h.0 t))

module _ (e : Elastic) (law : IsElastic e) (files : Binlog) (codec : Codec)
    (reads : IsCodec codec) where
  try_row-Keeps :
      (calls : RetryCalls) (id : ℕ) (s : Sync e)
      → IsSound e law files codec s
      → Keeps e law files codec reads s
          (try_row e codec calls id (lookup id s.tables.es_sync_retry) s)
  try_row-Keeps calls id s w = elim (Option-cases (lookup id s.tables.es_sync_retry)) [
    | inl gone ↦ rw (gone, try_row) (same-Keeps e law files codec reads s w)
    | inr (row, there) ↦
        rw (there, try_row)
          (process_retry_row-Keeps e law files codec reads calls id row s w (
            (λ now found.
                subst (λ r. Same r row) (cc (there, found)) (Same-refl files codec reads row)),
            w.tables.rows id row there,
          ))
  ]

  attempts-Keeps :
      (calls : List RetryCalls) (id : ℕ) (s : Sync e)
      → IsSound e law files codec s
      → Keeps e law files codec reads s (attempts e codec calls id s)
  unfolding attempts
  attempts-Keeps [] id s w = same-Keeps e law files codec reads s w
  attempts-Keeps (c ∷ calls) id s w =
      let after = try_row e codec c id (lookup id s.tables.es_sync_retry) s in
      let first = try_row-Keeps c id s w in
      Keeps-trans e law files codec reads s after (attempts e codec calls id after) first
        (attempts-Keeps calls id after first.sound)

  attempts_gone :
      (c : RetryCalls) (calls : List RetryCalls) (id : ℕ) (row : RetryRow) (s : Sync e)
      → 2 ≤ length calls
      → c.statement ≡ answers
      → All (λ b. b.statement ≡ answers) calls
      → lookup id s.tables.es_sync_retry ≡ some row
      → lookup id (attempts e codec (c ∷ calls) id s).tables.es_sync_retry ≡ none
  unfolding attempts
  attempts_gone c calls id row s long h hs there =
      let first : Tried id 1 (try_row e codec c id (lookup id s.tables.es_sync_retry) s).tables =
        rw (there, try_row) (process_retry_row-Tried e codec c id 0 row s h there (omega arith)) in
      elim (attempts-Tried e codec calls id 1
        (try_row e codec c id (lookup id s.tables.es_sync_retry) s) hs first) [
          | inl gone ↦ gone
          | inr (_, _, up, below) ↦ absurd (omega (arith, up, below, long))
        ]

  -- In a sound state of the index and the tables a row of an event that Canal delivers is tried
  -- three times at most: after three attempts or more whose statements answer, however the calls
  -- of Elasticsearch end, the row is gone, and the document that the task makes of its event, or of a
  -- later change of the same document, stands in the index, or the event is in the tables. In the
  -- binlog a document has at most one change at a position.
  pub attempts-ends :
      (c : RetryCalls) (calls : List RetryCalls) (id : ℕ) (row : RetryRow) (event : Event)
      (s : Sync e)
      → 2 ≤ length calls
      → c.statement ≡ answers
      → All (λ b. b.statement ≡ answers) calls
      → IsSound e law files codec s
      → lookup id s.tables.es_sync_retry ≡ some row
      → RowOf codec event row
      → IsCanal files event
      → (lookup id (attempts e codec (c ∷ calls) id s).tables.es_sync_retry ≡ none)
        × Landed e law files codec event (attempts e codec (c ∷ calls) id s)
  attempts-ends c calls id row event s long h hs w there of canal = (
    attempts_gone c calls id row s long h hs there,
    (attempts-Keeps (c ∷ calls) id s w).landed event canal (inr (inl (id, row, there, of))),
  )
