-- ===== src/Counter/Batches.antt =====
-- post_like_counter.go, the booking side: a batch of `counter_batch` goes to `post_counter` in one
-- transaction, is then cleared from Redis, and is restored when only Redis has it.
use comment_project.Common.{
  ℕ, ◌+◌, Bool, true, false, not, ◌&&◌, ◌||◌, Option, none, some, List, [], ◌∷◌, take, leb,
  if◌then◌else◌,
}
use comment_project.Common.Int.{ℤ, pos, negsuc, ◌+ℤ◌, int_eq, is_zero, is_positive, at_least_zero}
use comment_project.Common.Dict.{Dict, text_eq, lookup, insert, erase}
use comment_project.Common.Table.{adjust}
use comment_project.Common.Text.{Text, parse_int, cut}
use comment_project.Common.Trim.{is_blank, is_empty}
use comment_project.Counter.State.{
  Kind, post_like, post_comment, is_kind, Redis, Db, Store, BatchRow, pending, success, failed,
  Counts, column, set_column, batch_retry_delay,
}
use comment_project.Counter.Scripts.{integer, bulk, clear_script}
use comment_project.Counter.Flush.{
  Error, redis_error, db_error, invalid_batch, Outcome, answers, fails, unheard, insert_batch,
}

-- `initialPostCounterValues`: the row that a batch inserts for a post without one.
unfoldable pub initial_values : Kind → ℤ → Counts
initial_values kind (negsuc n) = record { like_count = pos 0; comment_count = pos 0 }
initial_values post_like (pos n) = record { like_count = pos n; comment_count = pos 0 }
initial_values post_comment (pos n) = record { like_count = pos 0; comment_count = pos n }

-- `INSERT INTO post_counter … ON DUPLICATE KEY UPDATE c = GREATEST(c + ?, 0)`
unfoldable pub book_delta : Kind → ℤ → ℤ → Dict ℤ Counts → Dict ℤ Counts
unfolding initial_values
book_delta kind post_id d counters = elim (lookup post_id counters) [
  | none ↦ insert post_id (initial_values kind d) counters
  | some c ↦ insert post_id (set_column kind (at_least_zero (column kind c +ℤ d)) c) counters
]

-- `status IN ('pending', 'failed') AND next_retry_at <= NOW()`
unfoldable pub is_due : ℕ → BatchRow → Bool
is_due now row =
    elim row.status [ pending ↦ true | failed ↦ true | _ ↦ false ] && leb row.next_retry_at now

-- Where the transaction stops: at one of its three statements, at its commit, or nowhere.
pub data TxFault : Type 0 where
  no_fault claim_fails book_fails mark_fails : TxFault
  commit : Outcome → TxFault

abbrev commit_outcome : TxFault → Outcome
commit_outcome no_fault = answers
commit_outcome (commit o) = o
commit_outcome _ = fails

-- The row after the transaction's first and third statements.
abbrev pub mark_success : BatchRow → BatchRow
mark_success row = record row { status = success; last_error = [] }

-- `applyCounterBatch`, for the batch id, post and delta that the scan has read. The result says
-- whether the batch was claimed and booked.
pub data Applied : Type 0 where
  applied : Bool → Applied
  apply_error : Error → Applied

-- The effect of the transaction's body, if the first statement finds the row.
unfoldable pub booked : Kind → Text → ℤ → ℤ → Db → Db
unfolding book_delta
booked kind batch post_id d db = record db {
  counter_batch = adjust batch mark_success db.counter_batch;
  post_counter = book_delta kind post_id d db.post_counter;
}

unfoldable pub claims_row : Kind → ℕ → Option BatchRow → Bool
unfolding is_due
claims_row kind now none = false
claims_row kind now (some row) = is_kind row.counter_type kind && is_due now row

unfoldable pub apply_batch : TxFault → Kind → Text → ℤ → ℤ → ℕ → Db → Applied × Db
unfolding booked claims_row
apply_batch claim_fails kind batch post_id d now db = (apply_error db_error, db)
apply_batch fault kind batch post_id d now db =
    if claims_row kind now (lookup batch db.counter_batch)
    then elim (commit_outcome fault) [
      | answers ↦ (applied true, booked kind batch post_id d db)
      | fails ↦ (apply_error db_error, db)
      | unheard ↦ (apply_error db_error, booked kind batch post_id d db)
    ]
    else elim fault [
      | commit answers ↦ (applied false, db)
      | commit _ ↦ (apply_error db_error, db)
      | _ ↦ (applied false, db)
    ]

-- `markCounterBatchFailed`: the statement names the batch id alone.
unfoldable pub mark_failed : Outcome → Text → Text → ℕ → Db → Db
mark_failed fails batch cause now db = db
mark_failed _ batch cause now db = record db {
  counter_batch =
      adjust batch
        (λ row. record row {
          status = failed;
          retry_count = row.retry_count + 1;
          next_retry_at = now + batch_retry_delay;
          last_error = take 512 cause;
        })
        db.counter_batch;
}

-- `clearProcessingPostCounterBatch`: the post of the cleared batch, or 0.
unfoldable pub clear_batch : Outcome → Text → Redis → Option ℤ × Redis
unfolding clear_script
clear_batch fails batch r = (none, r)
clear_batch unheard batch r = (none, (clear_script batch r).1)
clear_batch answers batch r =
    let (reply, r') = clear_script batch r in
    (elim reply [ integer n ↦ some n | bulk t ↦ parse_int t ], r')

-- A row as `applyDueCounterBatches` scans it, and how its calls end.
pub record DueRow : Type 0 where
  pub batch_id : Text
  pub post_id : ℤ
  pub delta : ℤ
  pub fault : TxFault
  pub mark_outcome : Outcome
  pub clear_outcome : Outcome
  pub cause : Text

-- What the loop does with the result of `applyCounterBatch`.
unfoldable pub settle : ℕ → DueRow → Applied × Db → Store → Store
unfolding mark_failed clear_batch
settle now row (apply_error e, db) s = record s {
  db = mark_failed row.mark_outcome row.batch_id row.cause now db;
}
settle now row (applied false, db) s = record s { db = db }
settle now row (applied true, db) s = record {
  redis = (clear_batch row.clear_outcome row.batch_id s.redis).1;
  db = db;
}

-- One round of the loop of `applyDueCounterBatches`.
unfoldable pub apply_due : Kind → ℕ → DueRow → Store → Store
unfolding apply_batch settle
apply_due kind now row s =
    if is_empty row.batch_id || not (is_positive row.post_id) || is_zero row.delta
    then s
    else settle now row (apply_batch row.fault kind row.batch_id row.post_id row.delta now s.db) s

-- `parseProcessingCounterBatchValue`
unfoldable pub parse_batch_value : Text → Option (ℤ × ℤ)
parse_batch_value raw = elim (cut b':' raw) [
  | none ↦ none
  | some (post_text, delta_text) ↦ elim (parse_int post_text) [
    | none ↦ none
    | some post_id ↦ if not (is_positive post_id) then none else elim (parse_int delta_text) [
      | none ↦ none
      | some d ↦ if is_zero d then none else some (post_id, d)
    ]
  ]
]

pub data Recovered : Type 0 where
  gone restored cleaned kept : Recovered
  recover_error : Error → Recovered

-- What `recoverProcessingCounterBatch` does once it has parsed the value.
unfoldable pub recover_parsed :
    Outcome → Outcome → Kind → Text → ℤ → ℤ → ℕ → Option BatchRow → Store → Recovered × Store
unfolding insert_batch clear_batch
recover_parsed insert_outcome clear_outcome kind batch post_id d now none s =
    let (error, db) = insert_batch insert_outcome kind post_id d batch now s.db in
    (elim error [ none ↦ restored | some e ↦ recover_error e ], record s { db = db })
recover_parsed insert_outcome clear_outcome kind batch post_id d now (some row) s =
    elim row.status [
      | success ↦
          let (post, r) = clear_batch clear_outcome batch s.redis in
          (
            elim post [ none ↦ recover_error redis_error | some _ ↦ cleaned ],
            record s { redis = r },
          )
      | _ ↦ (kept, s)
    ]

-- The row that `WHERE batch_id = ? AND counter_type = ?` selects.
unfoldable pub typed_row : Kind → Option BatchRow → Option BatchRow
typed_row kind none = none
typed_row kind (some row) = if is_kind row.counter_type kind then some row else none

-- `recoverProcessingCounterBatch`, where its reads answer.
unfoldable pub recover_batch : Outcome → Outcome → Kind → Text → ℕ → Store → Recovered × Store
unfolding recover_parsed typed_row parse_batch_value
recover_batch insert_outcome clear_outcome kind batch now s =
    elim (lookup batch s.redis.processing_batch) [
      | none ↦ (
        gone,
        record s {
          redis = record (s.redis) { processing_batches = erase batch s.redis.processing_batches };
        },
      )
      | some raw ↦ elim (parse_batch_value raw) [
        | none ↦ (recover_error invalid_batch, s)
        | some (post_id, d) ↦
            recover_parsed insert_outcome clear_outcome kind batch post_id d now
              (typed_row kind (lookup batch s.db.counter_batch)) s
      ]
    ]

-- The loop of `recoverProcessingCounterBatches` over the ids that `SRANDMEMBER` drew: the first
-- error ends it, and a blank id is skipped. The result counts the restored and the cleaned batches.
unfoldable pub recover_batches :
    Kind → ℕ → List Text → ℕ × ℕ → Store → Option Error × (ℕ × ℕ) × Store
unfolding recover_batch is_blank
recover_batches kind now [] counts s = (none, counts, s)
recover_batches kind now (batch ∷ batches) (restored_count, cleaned_count) s =
    if is_blank batch
    then recover_batches kind now batches (restored_count, cleaned_count) s
    else (let (verdict, s') = recover_batch answers answers kind batch now s in
        elim verdict [
          | recover_error e ↦ (some e, (restored_count, cleaned_count), s')
          | restored ↦ recover_batches kind now batches (restored_count + 1, cleaned_count) s'
          | cleaned ↦ recover_batches kind now batches (restored_count, cleaned_count + 1) s'
          | _ ↦ recover_batches kind now batches (restored_count, cleaned_count) s'
        ])
