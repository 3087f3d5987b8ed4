-- ===== src/Outbox/Tests.antt =====
-- An outbox with one row that is due.
use comment_project.Common.{
  List, ◌∷◌, ℕ, ◌≡◌, refl, true, ◌==◌, some, [], All, take, arith, Bool-cases, inl, inr,
}
use comment_project.Common.Int.{pos, is_positive}
use comment_project.Common.Dict.{nat_eq, lookup}
use comment_project.Common.Table.{add}
use comment_project.Common.Outcome.{answers, fails}
use comment_project.Common.Text.{codes, format_int, in_int64}
use comment_project.Counter.State.{post_like}
use comment_project.Counter.Flush.{notice, schedules}
use comment_project.Outbox.{
  OutboxRow, Outbox, new_outbox_row, insert_outbox, message_of, RowCalls, publish_outbox, due_rows,
}
use comment_project.Outbox.Honest.{Action, pass, act_all, act_all-IsHonest}
use comment_project.Outbox.Steps.{Run, Step, IsHonest, Keeps, run-IsHonest}
use comment_project.Outbox.Publish.{publish_outbox-Run}
use comment_project.Outbox.Sending.{IsSent}
use comment_project.Outbox.Deliver.{event_type_of, publish_outbox-sends, message_of-notice}

abbrev empty : Outbox
empty = record { rows = []; next_id = 1; topic = [] }

empty-IsHonest : IsHonest empty
unfolding lookup
empty-IsHonest = record { free = λ id h. refl; distinct = tt; told = λ id row h. cc h }

-- A like of post 5 at second 10.
abbrev liked : Outbox
liked = insert_outbox (codes "post_like_count_dirty") (pos 5) 10 empty

recorded : Run empty liked
recorded = Run.next Run.here (Step.record_row empty (codes "post_like_count_dirty") (pos 5) 10)

liked-IsHonest : IsHonest liked
liked-IsHonest = (run-IsHonest empty liked recorded empty-IsHonest).0

abbrev smooth : ℕ → RowCalls
smooth id = record { claim = answers; notice = answers; mark = answers; now = 12; message = [] }

abbrev unheard_topic : ℕ → RowCalls
unheard_topic id = record (smooth id) { notice = fails }

publish_outbox-Run_example : Run liked (publish_outbox true true 100 11 unheard_topic liked).1
publish_outbox-Run_example = publish_outbox-Run true true 100 11 unheard_topic liked liked-IsHonest

-- a pass whose message is not acknowledged, and one that succeeds
abbrev two_passes : List Action
two_passes = pass true true 100 11 unheard_topic ∷ pass true true 100 80 smooth ∷ []

act_all-IsHonest_example :
    IsHonest (act_all two_passes liked) × Keeps liked (act_all two_passes liked)
act_all-IsHonest_example = act_all-IsHonest two_passes liked liked-IsHonest

liked_post :
    (id : ℕ) (row : OutboxRow) → lookup id liked.rows ≡ some row → is_positive row.post_id ≡ true
unfolding insert_outbox lookup add
liked_post id row h = elim (Bool-cases (1 == id)) [
  | inl same ↦
      let is : some (new_outbox_row (codes "post_like_count_dirty") (pos 5) 10) ≡ some row =
        rw same at h in
      let fields : new_outbox_row (codes "post_like_count_dirty") (pos 5) 10 ≡ row = cc is in
      rw (← fields) refl
  | inr other ↦ absurd (cc (rw other at h))
]

publish_outbox-sends_example :
    ((publish_outbox true true 0 11 smooth liked).0 ≡ true)
    × All
        (IsSent (publish_outbox true true 0 11 smooth liked).1)
        (take 100 (due_rows 11 liked.rows))
publish_outbox-sends_example =
    publish_outbox-sends 0 11 smooth liked liked-IsHonest
      (λ id. record { claim = refl; notice = refl; mark = refl; later = omega arith }) liked_post

message_of-notice_example :
    notice (message_of (event_type_of post_like) (pos 5)) ≡ schedules post_like (format_int (pos 5))
unfolding in_int64
message_of-notice_example = message_of-notice post_like (pos 5) refl refl
