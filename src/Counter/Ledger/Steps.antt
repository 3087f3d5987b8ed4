-- ===== src/Counter/Ledger/Steps.antt =====
-- Each step keeps the account of every post, but for the deltas that it adds.
use comment_project.Common.{ℕ, ◌≡◌, refl, inl, inr, none, if◌then◌else◌, Option-cases}
use comment_project.Common.Int.{ℤ, pos, ◌+ℤ◌, int_laws, int_beq, int_beq_iff}
use comment_project.Common.Dict.{text_eq, lookup, insert, lookup-erase, erase_absent}
use comment_project.Common.Sum.{sum_by}
use comment_project.Common.Text.{Text, format_int}
use comment_project.Counter.State.{Kind, Store, clear_dirty, quiet_period, max_delay}
use comment_project.Counter.Scripts.{
  enqueue_script, claim_script, take_delta, not_ready_until, batch_value,
}
use comment_project.Counter.Batches.{typed_row}
use comment_project.Counter.Ledger.{account, open_sum, open_share}
use comment_project.Counter.Ledger.Content.{
  or_zero-hincrby, text_beq-format_int, value_share-batch_value,
}

pub enqueue-account :
    (kind : Kind) (s : Store) (p d q : ℤ) (now : ℕ)
    → account kind q (record s { redis = (enqueue_script (format_int p) d now s.redis).1 })
      ≡ account kind q s +ℤ (if int_beq p q then d else pos 0)
unfolding account enqueue_script open_sum
enqueue-account kind s p d q now = grind (
  int_laws,
  or_zero-hincrby (format_int q) (format_int p) d s.redis.delta,
  text_beq-format_int p q,
)

-- A new entry that MySQL does not know adds its delta to the open sum of its post.
open_share_new :
    (kind : Kind) (s : Store) (p q d : ℤ) (batch : Text)
    → lookup batch s.db.counter_batch ≡ none
    → open_share kind (format_int q) s.db.counter_batch batch (batch_value (format_int p) d)
      ≡ (if int_beq p q then d else pos 0)
unfolding open_share
open_share_new kind s p q d batch unknown =
    rw (unknown, typed_row) (value_share-batch_value batch p q d)

take_delta-account :
    (kind : Kind) (s : Store) (p q : ℤ) (batch : Text)
    → lookup batch s.redis.processing_batch ≡ none
    → lookup batch s.db.counter_batch ≡ none
    → account kind q (record s { redis = (take_delta (format_int p) batch s.redis).1 })
      ≡ account kind q s
unfolding account open_sum take_delta clear_dirty insert sum_by
take_delta-account kind s p q batch unclaimed unknown =
    elim (Option-cases (lookup (format_int p) s.redis.delta)) [
      | inl e ↦ rw (e, take_delta) refl
      | inr (d, e) ↦
          rw (e, take_delta)
            (grind (
              int_laws,
              e,
              open_share_new kind s p q d batch unknown,
              erase_absent batch s.redis.processing_batch unclaimed,
              lookup-erase (format_int q) (format_int p) s.redis.delta,
              text_beq-format_int p q,
              int_beq_iff p q,
            ))
    ]

pub claim-account :
    (kind : Kind) (s : Store) (p q : ℤ) (now : ℕ) (batch : Text)
    → lookup batch s.redis.processing_batch ≡ none
    → lookup batch s.db.counter_batch ≡ none
    → account kind q (record s {
      redis = (claim_script (format_int p) quiet_period max_delay now batch s.redis).1;
    })
      ≡ account kind q s
claim-account kind s p q now batch unclaimed unknown =
    elim (Option-cases (not_ready_until (format_int p) quiet_period max_delay now s.redis)) [
      | inl e ↦
          unfold claim_script in
          rw (e, claim_script) (take_delta-account kind s p q batch unclaimed unknown)
      | inr (next, e) ↦ unfold claim_script account open_sum in rw (e, claim_script) refl
    ]
