-- ===== src/Outbox/Publish.antt =====
-- A pass of the publisher is such a run, whichever of its calls fail.
use comment_project.Common.{
  ℕ, ◌≡◌, ◌∙◌, sym, subst, refl, inl, inr, Bool, true, false, not, ◌&&◌, some, [], ◌∷◌, All, take,
  All-take, ltb, Bool-cases, if◌then◌else◌,
}
use comment_project.Common.Int.{is_positive}
use comment_project.Common.Dict.{Dict, nat_eq, lookup, All-found}
use comment_project.Common.Outcome.{Outcome, answers, fails, unheard}
use comment_project.Outbox.{
  OutboxRow, Outbox, executed, update_row, as_processing, as_pending, as_sent, RowCalls, notify,
  send_row, Claimed, claimed, missed, claim_error, claimable, claim_row, after_claim, publish_row,
  publish_rows, due_rows, is_due, publish_outbox, batch_size_default,
}
use comment_project.Outbox.Steps.{
  InTopic, InTopic-last, notice_of, append, Step, Run, here, next, claim, put_back, tell, settle,
  Run-trans, IsHonest, Keeps, run-IsHonest,
}

-- The selected row holds the event of the row that is there now.
abbrev pub Selected : Outbox → ℕ × OutboxRow → Type 0
Selected s (id, row) =
    (now : OutboxRow) × (lookup id s.rows ≡ some now) × (notice_of now ≡ notice_of row)

one : (s t : Outbox) → Step s t → Run s t
one s t h = next here h

executed-Run : (o : Outcome) (s t : Outbox) → Step s t → Run s (executed o s t).1
executed-Run answers s t h = one s t h
executed-Run fails s t h = here
executed-Run unheard s t h = one s t h

taken-Run :
    (now id : ℕ) (s : Outbox) (c : Bool)
    → Run s
        (if◌then◌else◌ {A = Claimed × Outbox} c
          (claimed, update_row id (as_processing now) s)
          (missed, s)).1
taken-Run now id s true = one s (update_row id (as_processing now) s) (claim s id now)
taken-Run now id s false = here

claim-Run : (o : Outcome) (now id : ℕ) (s : Outbox) → Run s (claim_row o now id s).1
unfolding claim_row
claim-Run answers now id s = taken-Run now id s (claimable now (lookup id s.rows))
claim-Run fails now id s = here
claim-Run unheard now id s = taken-Run now id s (claimable now (lookup id s.rows))

send_row-Run :
    (calls : RowCalls) (o : Outcome) (id : ℕ) (row : OutboxRow) (s : Outbox)
    → Selected s (id, row)
    → calls.notice ≡ o
    → Run s (send_row calls id row s).1
unfolding send_row notify
send_row-Run calls answers id row s (now, there, same) h =
    let told = append (notice_of row) s in
    let first : Step s told = subst (λ m. Step s (append m s)) same (tell s id now there) in
    let in_topic : InTopic (notice_of now) told.topic =
      subst (λ m. InTopic m told.topic) (sym same) (InTopic-last (notice_of row) s.topic) in
    rw (h, send_row)
      (Run-trans s told (executed calls.mark told (update_row id (as_sent calls.now) told)).1
        (one s told first)
        (executed-Run calls.mark told (update_row id (as_sent calls.now) told)
          (settle told id calls.now now there in_topic)))
send_row-Run calls fails id row s (now, there, same) h =
    rw (h, send_row)
      (executed-Run calls.mark s (update_row id (as_pending calls.now calls.message) s)
        (put_back s id calls.now calls.message))
send_row-Run calls unheard id row s (now, there, same) h =
    let told = append (notice_of row) s in
    let first : Step s told = subst (λ m. Step s (append m s)) same (tell s id now there) in
    rw (h, send_row)
      (Run-trans s told
        (executed calls.mark told (update_row id (as_pending calls.now calls.message) told)).1
        (one s told first)
        (executed-Run calls.mark told (update_row id (as_pending calls.now calls.message) told)
          (put_back told id calls.now calls.message)))

-- A run keeps the rows that are selected.
Keeps-Selected : (s r : Outbox) (x : ℕ × OutboxRow) → Keeps s r → Selected s x → Selected r x
Keeps-Selected s r (id, row) k (now, there, same) =
    let (last, found, equal) = k.rows id now there in (last, found, equal ∙ same)

claimed-Run :
    (c : Claimed × Outbox) (calls : RowCalls) (id : ℕ) (row : OutboxRow) (s : Outbox)
    → Run s c.1
    → Selected c.1 (id, row)
    → Run s (after_claim calls id row c).1
claimed-Run (claimed, t) calls id row s r h =
    Run-trans s t (send_row calls id row t).1 r (send_row-Run calls calls.notice id row t h refl)
claimed-Run (missed, t) calls id row s r h = r
claimed-Run (claim_error, t) calls id row s r h = r

publish_row-Run :
    (calls : RowCalls) (id : ℕ) (row : OutboxRow) (s : Outbox)
    → IsHonest s
    → Selected s (id, row)
    → Run s (publish_row calls id row s).1
unfolding publish_row
publish_row-Run calls id row s w h = elim (Bool-cases (not (is_positive row.post_id))) [
  | inl bad ↦ rw bad here
  | inr good ↦
      let c = claim_row calls.claim calls.now id s in
      let r = claim-Run calls.claim calls.now id s in
      rw good (
        claimed-Run c calls id row s r
          (Keeps-Selected s c.1 (id, row) (run-IsHonest s c.1 r w).1 h))
]

All-Selected :
    (s r : Outbox) (rows : Dict ℕ OutboxRow)
    → Keeps s r
    → All (Selected s) rows
    → All (Selected r) rows
All-Selected s r [] k h = tt
All-Selected s r (x ∷ rows) k h = (Keeps-Selected s r x k h.0, All-Selected s r rows k h.1)

publish_rows-Run :
    (calls : ℕ → RowCalls) (rows : Dict ℕ OutboxRow) (s : Outbox)
    → IsHonest s
    → All (Selected s) rows
    → Run s (publish_rows calls rows s).1
unfolding publish_rows
publish_rows-Run calls [] s w h = here
publish_rows-Run calls ((id, row) ∷ rows) s w h =
    let after = (publish_row (calls id) id row s).1 in
    let first = publish_row-Run (calls id) id row s w h.0 in
    let (honest, kept) = run-IsHonest s after first w in
    elim (Bool-cases (publish_row (calls id) id row s).0) [
      | inr stopped ↦ rw stopped first
      | inl done ↦ rw done (
          Run-trans s after (publish_rows calls rows after).1 first
            (publish_rows-Run calls rows after honest (All-Selected s after rows kept h.1)))
    ]

All-due :
    (P : ℕ × OutboxRow → Type 0) (now : ℕ) (m : Dict ℕ OutboxRow) → All P m → All P (due_rows now m)
All-due P now [] h = tt
All-due P now ((id, row) ∷ m) h = elim (Bool-cases (is_due now row)) [
  | inl ready ↦ rw ready (h.0, All-due P now m h.1)
  | inr later ↦ rw later (All-due P now m h.1)
]

-- From an honest outbox, a pass of the publisher is a run of steps of the
-- outbox, whichever of its statements and messages fail.
pub publish_outbox-Run :
    (table_made selected : Bool) (batch_size now : ℕ) (calls : ℕ → RowCalls) (s : Outbox)
    → IsHonest s
    → Run s (publish_outbox table_made selected batch_size now calls s).1
unfolding publish_outbox
publish_outbox-Run table_made selected batch_size now calls s w =
    elim (Bool-cases (table_made && selected)) [
      | inr missing ↦ rw missing here
      | inl ready ↦
          let n = if ltb 0 batch_size then batch_size else batch_size_default in
          rw ready (
            publish_rows-Run calls (take n (due_rows now s.rows)) s w (
              All-take (Selected s) n (due_rows now s.rows) (
                All-due (Selected s) now s.rows
                  (All-found (Selected s) s.rows w.distinct (λ id row found. (row, found, refl))))))
    ]
