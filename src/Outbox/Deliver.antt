-- ===== src/Outbox/Deliver.antt =====
-- A pass whose calls answer sends every row that it selects, and the task schedules its post.
use comment_project.Common.{
  ℕ, zero, suc, ◌≡◌, refl, inl, inr, true, none, some, [], ◌∷◌, All, arith, take, All-take,
  Bool-cases, if◌then◌else◌, ltb,
}
use comment_project.Common.Int.{ℤ, is_positive}
use comment_project.Common.Dict.{Dict, nat_eq, lookup, Distinct, All-found, text_beq}
use comment_project.Common.Text.{Text, codes, format_int, in_int64, parse_int-format_int}
use comment_project.Counter.State.{Kind, post_like, post_comment}
use comment_project.Counter.Flush.{notice, schedules}
use comment_project.Outbox.{
  OutboxRow, Outbox, message_of, RowCalls, is_due, due_rows, publish_outbox, batch_size_default,
}
use comment_project.Outbox.Steps.{IsHonest}
use comment_project.Outbox.Sending.{Answered, absent-cons, Ready, IsSent, publish_rows-Sends}

-- The selected rows are distinct and due.
lookup-due_rows :
    (now id : ℕ) (m : Dict ℕ OutboxRow) → lookup id m ≡ none → lookup id (due_rows now m) ≡ none
unfolding lookup
lookup-due_rows now id [] h = refl
lookup-due_rows now id ((j, row) ∷ m) h = elim (Bool-cases (is_due now row)) [
  | inl ready ↦ rw ready (ground (arith, h, lookup-due_rows now id m))
  | inr later ↦ rw later (lookup-due_rows now id m (absent-cons id j row m h).1)
]

due_rows-Distinct : (now : ℕ) (m : Dict ℕ OutboxRow) → Distinct m → Distinct (due_rows now m)
due_rows-Distinct now [] d = tt
due_rows-Distinct now ((j, row) ∷ m) d = elim (Bool-cases (is_due now row)) [
  | inl ready ↦ rw ready (lookup-due_rows now j m d.0, due_rows-Distinct now m d.1)
  | inr later ↦ rw later (due_rows-Distinct now m d.1)
]

due_rows-due :
    (P : ℕ × OutboxRow → Type 0) (now : ℕ) (m : Dict ℕ OutboxRow)
    → All P m
    → All (λ (x : ℕ × OutboxRow). P x × (is_due now x.1 ≡ true)) (due_rows now m)
due_rows-due P now [] h = tt
due_rows-due P now ((id, row) ∷ m) h = elim (Bool-cases (is_due now row)) [
  | inl ready ↦ rw ready ((h.0, ready), due_rows-due P now m h.1)
  | inr later ↦ rw later (due_rows-due P now m h.1)
]

lookup-take : (id n : ℕ) (m : Dict ℕ OutboxRow) → lookup id m ≡ none → lookup id (take n m) ≡ none
unfolding lookup
lookup-take id zero m h = refl
lookup-take id (suc n) [] h = refl
lookup-take id (suc n) ((j, row) ∷ m) h = ground (arith, h, lookup-take id n m)

take-Distinct : (n : ℕ) (m : Dict ℕ OutboxRow) → Distinct m → Distinct (take n m)
take-Distinct zero m d = tt
take-Distinct (suc n) [] d = tt
take-Distinct (suc n) ((j, row) ∷ m) d = (lookup-take j n m d.0, take-Distinct n m d.1)

All-Ready :
    (now : ℕ) (s : Outbox) (rows : Dict ℕ OutboxRow)
    → All
        (λ (x : ℕ × OutboxRow).
          ((lookup x.0 s.rows ≡ some x.1) × (is_positive x.1.post_id ≡ true))
          × (is_due now x.1 ≡ true))
        rows
    → All (Ready now s) rows
All-Ready now s [] h = tt
All-Ready now s (x ∷ rows) h = ((h.0.0.0, h.0.0.1, h.0.1), All-Ready now s rows h.1)

-- In an honest outbox whose rows are all of posts, a pass whose calls answer, at times from that of the
-- selection on, ends without an error, and each row that it selects, a hundred or the given number of
-- rows that are due, is sent: its message is in the topic, and it will not be selected again.
pub publish_outbox-sends :
    (batch_size now : ℕ) (calls : ℕ → RowCalls) (s : Outbox)
    → IsHonest s
    → ((id : ℕ) → Answered now (calls id))
    → ((id : ℕ) (row : OutboxRow) → lookup id s.rows ≡ some row → is_positive row.post_id ≡ true)
    → ((publish_outbox true true batch_size now calls s).0 ≡ true)
      × All
          (IsSent (publish_outbox true true batch_size now calls s).1)
          (take (if ltb 0 batch_size then batch_size else batch_size_default) (due_rows now s.rows))
unfolding publish_outbox
publish_outbox-sends batch_size now calls s w a posts =
    let n = if ltb 0 batch_size then batch_size else batch_size_default in
    let rows = take n (due_rows now s.rows) in
    let Known =
      λ (x : ℕ × OutboxRow). (lookup x.0 s.rows ≡ some x.1) × (is_positive x.1.post_id ≡ true) in
    let known = All-found Known s.rows w.distinct (λ id row found. (found, posts id row found)) in
    let ready =
      All-take (λ (x : ℕ × OutboxRow). Known x × (is_due now x.1 ≡ true)) n (due_rows now s.rows)
        (due_rows-due Known now s.rows known) in
    let (done, _, _, all_sent) =
      publish_rows-Sends now calls rows s a
        (take-Distinct n (due_rows now s.rows) (due_rows-Distinct now s.rows w.distinct))
        (All-Ready now s rows ready) in
    (done, all_sent)

-- The type of the message of a kind of counter: `postLikeDirtyEventType`, `postCommentDirtyEventType`.
abbrev pub event_type_of : Kind → Text
event_type_of post_like = codes "post_like_count_dirty"
event_type_of post_comment = codes "post_comment_count_dirty"

-- The message that the service writes for a post with a positive 64-bit id makes the task schedule
-- the counter of that kind of that post.
pub message_of-notice :
    (kind : Kind) (post : ℤ)
    → is_positive post ≡ true
    → in_int64 post ≡ some post
    → notice (message_of (event_type_of kind) post) ≡ schedules kind (format_int post)
unfolding notice text_beq
message_of-notice post_like post positive fits =
    rw (parse_int-format_int post fits, notice) (rw positive refl)
message_of-notice post_comment post positive fits =
    rw (parse_int-format_int post fits, notice) (rw positive refl)
