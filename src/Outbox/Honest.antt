-- ===== src/Outbox/Honest.antt =====
-- New rows and whole passes of the publisher, one after another.
use comment_project.Common.{ℕ, Bool, List, [], ◌∷◌}
use comment_project.Common.Int.{ℤ}
use comment_project.Common.Text.{Text}
use comment_project.Outbox.{Outbox, RowCalls, insert_outbox, publish_outbox}
use comment_project.Outbox.Steps.{Run, Step, IsHonest, Keeps, Keeps-refl, Keeps-trans, run-IsHonest}
use comment_project.Outbox.Publish.{publish_outbox-Run}

-- A request inserts a row, or a publisher makes a pass, with how its calls end.
pub data Action : Type 0 where
  new_row : Text → ℤ → ℕ → Action
  pass : Bool → Bool → ℕ → ℕ → (ℕ → RowCalls) → Action

unfoldable pub act : Action → Outbox → Outbox
act (new_row event_type post now) s = insert_outbox event_type post now s
act (pass table_made selected batch_size now calls) s =
    (publish_outbox table_made selected batch_size now calls s).1

unfoldable pub act_all : List Action → Outbox → Outbox
unfolding act
act_all [] s = s
act_all (a ∷ actions) s = act_all actions (act a s)

act-IsHonest : (a : Action) (s : Outbox) → IsHonest s → IsHonest (act a s) × Keeps s (act a s)
unfolding act
act-IsHonest (new_row event_type post now) s w =
    run-IsHonest s _ (Run.next Run.here (Step.record_row s event_type post now)) w
act-IsHonest (pass table_made selected batch_size now calls) s w =
    run-IsHonest s _ (publish_outbox-Run table_made selected batch_size now calls s w) w

-- From an honest outbox, after new rows and passes of the publisher one after another, whichever of
-- their statements and messages fail: a row is marked as sent only if its message is in the topic,
-- ids are new and distinct, and no row and no message is lost.
pub act_all-IsHonest :
    (actions : List Action) (s : Outbox)
    → IsHonest s
    → IsHonest (act_all actions s) × Keeps s (act_all actions s)
unfolding act_all
act_all-IsHonest [] s w = (w, Keeps-refl s)
act_all-IsHonest (a ∷ actions) s w =
    let (honest, kept) = act-IsHonest a s w in
    let (last, all_kept) = act_all-IsHonest actions (act a s) honest in
    (last, Keeps-trans s (act a s) (act_all actions (act a s)) kept all_kept)
