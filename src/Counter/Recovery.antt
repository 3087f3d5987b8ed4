-- ===== src/Counter/Recovery.antt =====
-- The recovery and the booking of batches as runs of the ledger's steps, and where they are not.
use comment_project.Common.{
  ℕ, ◌+◌, ◌≡◌, ◌≢◌, ◌⊎◌, refl, inl, inr, none, some, Option, true, false, not, ◌||◌, arith,
  Option-cases, Bool-cases,
}
use comment_project.Common.Int.{ℤ, is_zero, is_positive}
use comment_project.Common.Dict.{text_eq, lookup}
use comment_project.Common.Table.{lookup-adjust_self}
use comment_project.Common.Text.{Text}
use comment_project.Common.Trim.{is_empty}
use comment_project.Counter.State.{
  Kind, is_kind, Store, Db, BatchRow, Status, success, pending, processing, failed,
  batch_retry_delay,
}
use comment_project.Counter.Flush.{Outcome, answers, fails, unheard, insert_batch, db_error}
use comment_project.Counter.Batches.{
  parse_batch_value, recover_parsed, typed_row, recover_batch, clear_batch, claims_row, booked,
  apply_batch, mark_failed, apply_due, DueRow, TxFault, no_fault, claim_fails, book_fails,
  mark_fails, commit, applied, apply_error, book_delta, is_due, mark_success, settle,
}
use comment_project.Counter.Ledger.{
  Inv, Holds, is_success, insert as insert_step, apply, mark, clear, upkeep,
}
use comment_project.Counter.Conservation.{Run, here, next}
use comment_project.Counter.Handlers.{parsed-Holds}

module _ {kind : Kind} (s : Store) (batch : Text) where
  clear_batch-Run :
      (o : Outcome)
      → is_success (typed_row kind (lookup batch s.db.counter_batch)) ≡ true
      → Run kind s (record s { redis = (clear_batch o batch s.redis).1 })
  unfolding clear_batch
  clear_batch-Run answers h = next here (clear batch h)
  clear_batch-Run fails h = here
  clear_batch-Run unheard h = next here (clear batch h)

  insert_batch-Run :
      (o : Outcome) (p d : ℤ) (now : ℕ)
      → Holds s.redis batch p d
      → Run kind s (record s { db = (insert_batch o kind p d batch now s.db).1 })
  unfolding insert_batch
  insert_batch-Run answers p d now h = elim (Bool-cases (is_zero d)) [
    | inl z ↦ rw z here
    | inr nz ↦ rw nz (next here (insert_step p d batch now (inl h)))
  ]
  insert_batch-Run fails p d now h = elim (Bool-cases (is_zero d)) [
    | inl z ↦ rw z here
    | inr nz ↦ rw nz here
  ]
  insert_batch-Run unheard p d now h = elim (Bool-cases (is_zero d)) [
    | inl z ↦ rw z here
    | inr nz ↦ rw nz (next here (insert_step p d batch now (inl h)))
  ]

recover_status-Run :
    {kind : Kind} (io co : Outcome) (s : Store) (batch : Text) (p d : ℤ) (now : ℕ) (row : BatchRow)
    (status : Status)
    → row.status ≡ status
    → typed_row kind (lookup batch s.db.counter_batch) ≡ some row
    → Run kind s (recover_parsed io co kind batch p d now (some row) s).1
unfolding recover_parsed
recover_status-Run io co s batch p d now row success e found =
    rw e (clear_batch-Run s batch co (rw found (rw e refl)))
recover_status-Run io co s batch p d now row pending e found = rw e here
recover_status-Run io co s batch p d now row processing e found = rw e here
recover_status-Run io co s batch p d now row failed e found = rw e here

recover_row-Run :
    {kind : Kind} (io co : Outcome) (s : Store) (batch : Text) (p d : ℤ) (now : ℕ)
    (row : Option BatchRow)
    → typed_row kind (lookup batch s.db.counter_batch) ≡ row
    → Holds s.redis batch p d
    → Run kind s (recover_parsed io co kind batch p d now row s).1
recover_row-Run io co s batch p d now none e h =
    unfold recover_parsed in insert_batch-Run s batch io p d now h
recover_row-Run io co s batch p d now (some row) e h =
    recover_status-Run io co s batch p d now row row.status refl e

-- From a store with the ledger's invariant, the recovery of a batch is a run of the ledger's steps,
-- whatever its writes end in.
pub recover_batch-Run :
    {kind : Kind} (io co : Outcome) (s : Store) (batch : Text) (now : ℕ)
    → Inv kind s
    → Run kind s (recover_batch io co kind batch now s).1
unfolding recover_batch
recover_batch-Run {kind} io co s batch now v =
    elim (Option-cases (lookup batch s.redis.processing_batch)) [
      | inl e ↦ rw (e, recover_batch) (next here (upkeep _ refl refl refl))
      | inr (raw, e) ↦ elim (Option-cases (parse_batch_value raw)) [
        | inl n ↦ rw (e, recover_batch) (rw (n, recover_batch) here)
        | inr ((p, d), n) ↦
            rw (e, recover_batch)
              (rw (n, recover_batch)
                (recover_row-Run io co s batch p d now _ refl
                  (parsed-Holds kind s batch raw p d v e n)))
      ]
    ]

-- The scanned row is one of the table's.
pub record Scanned (kind : Kind) (due : DueRow) (s : Store) : Type 0 where
  pub row : BatchRow
  pub found : lookup due.batch_id s.db.counter_batch ≡ some row
  pub typed : is_kind row.counter_type kind ≡ true
  pub same_post : due.post_id ≡ row.post_id
  pub same_delta : due.delta ≡ row.delta
  pub unfinished : is_success (some row) ≡ false

apply_fault :
    (f : TxFault) (kind : Kind) (batch : Text) (p d : ℤ) (now : ℕ) (db : Db)
    → f ≢ commit unheard
    → ((apply_batch f kind batch p d now db) ≡ (apply_error db_error, db))
      ⊎ ((apply_batch f kind batch p d now db) ≡ (applied false, db))
      ⊎ ((claims_row kind now (lookup batch db.counter_batch) ≡ true)
          × (apply_batch f kind batch p d now db ≡ (applied true, booked kind batch p d db)))
unfolding apply_batch
apply_fault claim_fails kind batch p d now db h = inl refl
apply_fault no_fault kind batch p d now db h = ground arith
apply_fault book_fails kind batch p d now db h = ground arith
apply_fault mark_fails kind batch p d now db h = ground arith
apply_fault (commit answers) kind batch p d now db h = ground arith
apply_fault (commit fails) kind batch p d now db h = ground arith
apply_fault (commit unheard) kind batch p d now db h = absurd (h refl)

unfinished-lookup :
    (kind : Kind) (due : DueRow) (s : Store)
    → Scanned kind due s
    → is_success (lookup due.batch_id s.db.counter_batch) ≡ false
unfinished-lookup kind due s c = rw c.found c.unfinished

booked_success :
    (kind : Kind) (due : DueRow) (s : Store)
    → Scanned kind due s
    → is_success (
        typed_row kind
          (lookup due.batch_id (booked kind due.batch_id due.post_id due.delta s.db).counter_batch))
      ≡ true
unfolding booked typed_row
booked_success kind due s c =
    rw (lookup-adjust_self due.batch_id mark_success c.row s.db.counter_batch c.found)
      (rw c.typed refl)

booked-Run :
    {kind : Kind} (due : DueRow) (s : Store) (now : ℕ)
    → Scanned kind due s
    → claims_row kind now (lookup due.batch_id s.db.counter_batch) ≡ true
    → Run kind s (record s { db = booked kind due.batch_id due.post_id due.delta s.db })
booked-Run due s now c h =
    rw (c.same_post, c.same_delta)
      (next here (apply due.batch_id c.row now c.found (rw c.found at h)))

pub run_trans : {kind : Kind} {s t u : Store} → Run kind s t → Run kind t u → Run kind s u
run_trans r here = r
run_trans r (next q st) = next (run_trans r q) st

-- A round of the booking loop over a scanned row that is not booked yet is a run of the ledger's
-- steps, unless the answer to the commit is lost.
pub apply_due-Run :
    {kind : Kind} (due : DueRow) (s : Store) (now : ℕ)
    → Scanned kind due s
    → due.fault ≢ commit unheard
    → Run kind s (apply_due kind now due s)
unfolding apply_due settle
apply_due-Run {kind} due s now c heard =
    elim (Bool-cases
      (is_empty due.batch_id || not (is_positive due.post_id) || is_zero due.delta)) [
        | inl skip ↦ rw skip here
        | inr go ↦
            rw go
              (elim (apply_fault due.fault kind due.batch_id due.post_id due.delta now s.db heard) [
                | inl e ↦
                    rw (e, settle)
                      (next here (
                        mark due.mark_outcome due.batch_id due.cause now
                          (unfinished-lookup kind due s c)))
                | inr (inl e) ↦ rw (e, settle) here
                | inr (inr (claims, e)) ↦
                    rw (e, settle)
                      (run_trans (booked-Run due s now c claims) (
                        clear_batch-Run
                          (record s { db = booked kind due.batch_id due.post_id due.delta s.db })
                          due.batch_id due.clear_outcome (booked_success kind due s c)))
              ])
      ]

-- `markCounterBatchFailed` names the batch id alone: a booked batch that it marks is due again
-- thirty seconds later.
pub mark_failed_reopens :
    (kind : Kind) (batch cause : Text) (now : ℕ) (db : Db) (row : BatchRow)
    → lookup batch db.counter_batch ≡ some row
    → is_kind row.counter_type kind ≡ true
    → claims_row kind
        (now + batch_retry_delay)
        (lookup batch (mark_failed answers batch cause now db).counter_batch)
      ≡ true
unfolding mark_failed claims_row is_due
mark_failed_reopens kind batch cause now db row found k =
    rw (lookup-adjust_self batch _ row db.counter_batch found) (rw k (ground arith))

-- When a round of the booking loop over a batch that is booked already ends in an error of its
-- first statement, and the mark of the failure is written, the round that comes thirty seconds
-- later books its delta once more.
pub booked_twice :
    (kind : Kind) (due : DueRow) (now : ℕ) (s : Store) (row : BatchRow)
    → lookup due.batch_id s.db.counter_batch ≡ some row
    → is_kind row.counter_type kind ≡ true
    → (is_empty due.batch_id || not (is_positive due.post_id) || is_zero due.delta) ≡ false
    → due.mark_outcome ≡ answers
    → (apply_due kind
        (now + batch_retry_delay)
        (record due { fault = no_fault })
        (apply_due kind now (record due { fault = claim_fails }) s)).db.post_counter
      ≡ book_delta kind due.post_id due.delta s.db.post_counter
unfolding apply_due settle apply_batch booked
booked_twice kind due now s row found k go marks =
    let again = mark_failed_reopens kind due.batch_id due.cause now s.db row found k in
    rw (go, marks) (rw (again, apply_batch) (unfold mark_failed in refl))
