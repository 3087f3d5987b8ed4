-- ===== src/Outbox/Sending.antt =====
-- The rows that are selected are sent, one after another, where all calls answer.
use comment_project.Common.{
  ℕ, ◌≤◌, ◌≡◌, ◌≢◌, ◌∙◌, sym, subst, refl, ap, inl, inr, Bool, true, ◌==◌, none, some, [], ◌∷◌, All,
  arith, Bool-cases,
}
use comment_project.Common.Int.{is_positive}
use comment_project.Common.Dict.{Dict, nat_eq, lookup, Distinct}
use comment_project.Common.Table.{adjust, lookup-adjust_self, lookup-adjust_ne}
use comment_project.Common.Outcome.{answers}
use comment_project.Counter.Flush.{DirtyMessage}
use comment_project.Outbox.{
  RowStatus, pending, processing, sent, due_in, claimable_in, OutboxRow, Outbox, update_row,
  as_processing, as_sent, RowCalls, notify, send_row, is_due, can_claim, claimed, claim_row,
  after_claim, publish_row, publish_rows,
}
use comment_project.Outbox.Steps.{InTopic, InTopic-left, InTopic-last, notice_of, append}

-- All calls for a row answer, at a time from `now` on.
pub record Answered (now : ℕ) (calls : RowCalls) : Type 0 where
  pub claim : calls.claim ≡ answers
  pub notice : calls.notice ≡ answers
  pub mark : calls.mark ≡ answers
  pub later : now ≤ calls.now

due_in-claimable_in :
    (st : RowStatus) (now later : ℕ) (row : OutboxRow)
    → now ≤ later
    → due_in st now row ≡ true
    → claimable_in st later row ≡ true
due_in-claimable_in pending now later row up h = refl
due_in-claimable_in processing now later row up h = ground (arith, up, h)
due_in-claimable_in sent now later row up h = absurd (cc h)

-- the outbox after a row was sent
abbrev sent_state : RowCalls → ℕ → OutboxRow → Outbox → Outbox
sent_state calls id row s =
    update_row id (as_sent calls.now)
      (append (notice_of row) (update_row id (as_processing calls.now) s))

claim_row-claimed :
    (now id : ℕ) (row : OutboxRow) (s : Outbox)
    → lookup id s.rows ≡ some row
    → can_claim now row ≡ true
    → claim_row answers now id s ≡ (claimed, update_row id (as_processing now) s)
unfolding claim_row
claim_row-claimed now id row s there claims = rw (there, claims) refl

send_row-sent :
    (calls : RowCalls) (id : ℕ) (row : OutboxRow) (s : Outbox)
    → calls.notice ≡ answers
    → calls.mark ≡ answers
    → send_row calls id row s ≡ (true, update_row id (as_sent calls.now) (append (notice_of row) s))
unfolding send_row notify
send_row-sent calls id row s h k = rw (h, k) refl

publish_row-sent :
    (now : ℕ) (calls : RowCalls) (id : ℕ) (row : OutboxRow) (s : Outbox)
    → Answered now calls
    → is_positive row.post_id ≡ true
    → lookup id s.rows ≡ some row
    → is_due now row ≡ true
    → publish_row calls id row s ≡ (true, sent_state calls id row s)
unfolding publish_row is_due can_claim
publish_row-sent now calls id row s a positive there due =
    let claims : can_claim calls.now row ≡ true =
      due_in-claimable_in row.status now calls.now row a.later due in
    let taken =
      ap (λ o. claim_row o calls.now id s) a.claim
      ∙ claim_row-claimed calls.now id row s there claims in
    rw (publish_row, positive)
      (ap (after_claim calls id row) taken
        ∙ send_row-sent calls id row (update_row id (as_processing calls.now) s) a.notice a.mark)

-- What sending a row leaves: the row is sent, its message is written, and the other rows stay.
sent_state_self :
    (calls : RowCalls) (id : ℕ) (row : OutboxRow) (s : Outbox)
    → lookup id s.rows ≡ some row
    → (lookup id (sent_state calls id row s).rows
        ≡ some (as_sent calls.now (as_processing calls.now row)))
      × InTopic (notice_of row) (sent_state calls id row s).topic
sent_state_self calls id row s there = (
  lookup-adjust_self id (as_sent calls.now) (as_processing calls.now row)
      (adjust id (as_processing calls.now) s.rows)
      (lookup-adjust_self id (as_processing calls.now) row s.rows there),
  InTopic-last (notice_of row) s.topic,
)

sent_state_other :
    (calls : RowCalls) (id j : ℕ) (row : OutboxRow) (s : Outbox)
    → id ≢ j
    → lookup j (sent_state calls id row s).rows ≡ lookup j s.rows
sent_state_other calls id j row s other =
    lookup-adjust_ne j id (as_sent calls.now) (adjust id (as_processing calls.now) s.rows) other
    ∙ lookup-adjust_ne j id (as_processing calls.now) s.rows other

-- A row that is due at `now`, of a post, as it stands in the outbox.
abbrev pub Ready : ℕ → Outbox → ℕ × OutboxRow → Type 0
Ready now s (id, row) =
    (lookup id s.rows ≡ some row) × (is_positive row.post_id ≡ true) × (is_due now row ≡ true)

-- The row is sent, and its message is written.
abbrev pub IsSent : Outbox → ℕ × OutboxRow → Type 0
IsSent s (id, row) =
    (now : OutboxRow) × (lookup id s.rows ≡ some now)
    × (now.status ≡ sent)
    × (notice_of now ≡ notice_of row)
    × InTopic (notice_of row) s.topic

pub absent-cons :
    (id j : ℕ) (row : OutboxRow) (rows : Dict ℕ OutboxRow)
    → lookup id ((j, row) ∷ rows) ≡ none
    → (id ≢ j) × (lookup id rows ≡ none)
unfolding lookup
absent-cons id j row rows h = elim (Bool-cases (j == id)) [
  | inl same ↦ let none_found : ⊥ = ground (arith, same, h) in absurd none_found
  | inr other ↦ ((λ e. ground (arith, e, other)), ground (arith, other, h))
]

Ready-after :
    (now : ℕ) (calls : RowCalls) (id : ℕ) (row : OutboxRow) (s : Outbox) (rows : Dict ℕ OutboxRow)
    → lookup id rows ≡ none
    → All (Ready now s) rows
    → All (Ready now (sent_state calls id row s)) rows
Ready-after now calls id row s [] absent h = tt
Ready-after now calls id row s ((j, other) ∷ rows) absent h =
    let (differ, rest) = absent-cons id j other rows absent in
    (
      (sent_state_other calls id j row s differ ∙ h.0.0, h.0.1, h.0.2),
      Ready-after now calls id row s rows rest h.1,
    )

-- The rows are sent; the others stay as they are, and the messages stay.
abbrev pub Sends : Dict ℕ OutboxRow → Outbox → Bool × Outbox → Type 0
Sends rows s r =
    (r.0 ≡ true)
    × ((id : ℕ) → lookup id rows ≡ none → lookup id r.1.rows ≡ lookup id s.rows)
    × ((m : DirtyMessage) → InTopic m s.topic → InTopic m r.1.topic)
    × All (IsSent r.1) rows

publish_rows-next :
    (calls : ℕ → RowCalls) (id : ℕ) (row : OutboxRow) (rows : Dict ℕ OutboxRow) (s after : Outbox)
    → publish_row (calls id) id row s ≡ (true, after)
    → publish_rows calls ((id, row) ∷ rows) s ≡ publish_rows calls rows after
unfolding publish_rows
publish_rows-next calls id row rows s after h = rw h refl

no_rows-Sends : (calls : ℕ → RowCalls) (s : Outbox) → Sends [] s (publish_rows calls [] s)
unfolding publish_rows
no_rows-Sends calls s = (refl, (λ id k. refl), (λ m k. k), tt)

pub publish_rows-Sends :
    (now : ℕ) (calls : ℕ → RowCalls) (rows : Dict ℕ OutboxRow) (s : Outbox)
    → ((id : ℕ) → Answered now (calls id))
    → Distinct rows
    → All (Ready now s) rows
    → Sends rows s (publish_rows calls rows s)
publish_rows-Sends now calls [] s a d h = no_rows-Sends calls s
publish_rows-Sends now calls ((id, row) ∷ rows) s a d h =
    let after = sent_state (calls id) id row s in
    let this = publish_row-sent now (calls id) id row s (a id) h.0.1 h.0.0 h.0.2 in
    let (done, others, kept, all_sent) =
      publish_rows-Sends now calls rows after a d.1
        (Ready-after now (calls id) id row s rows d.0 h.1) in
    let (found, told) = sent_state_self (calls id) id row s h.0.0 in
    subst (Sends ((id, row) ∷ rows) s) (sym (publish_rows-next calls id row rows s after this)) (
      done,
      (λ j k.
          let (differ, rest) = absent-cons j id row rows k in
          others j rest ∙ sent_state_other (calls id) id j row s (λ e. differ (sym e))),
      (λ m k. kept m (InTopic-left m s.topic (notice_of row ∷ []) k)),
      (
        (
          as_sent (calls id).now (as_processing (calls id).now row),
          others id d.0 ∙ found,
          refl,
          refl,
          kept (notice_of row) told,
        ),
        all_sent,
      ),
    )
