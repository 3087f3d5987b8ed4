-- ===== src/Counter/Scripts.antt =====
-- The three Lua scripts, each of which Redis runs as one step: `enqueuePostCounterDeltaScript`
-- (service), `claimPostCounterDeltaScript` and `clearPostCounterBatchScript` (task).
use comment_project.Common.{ℕ, ◌+◌, Option, none, some, ◌++◌, ◌∷◌, ltb, if◌then◌else◌}
use comment_project.Common.Int.{ℤ, pos, ◌-ℤ◌, is_zero}
use comment_project.Common.Dict.{text_eq, lookup, insert, erase}
use comment_project.Common.Text.{Text, codes, decimal, format_int, cut}
use comment_project.Counter.State.{Redis, hincrby, clear_dirty}

-- What a script returns: an integer or a text.
pub data Reply : Type 0 where
  integer : ℤ → Reply
  bulk : Text → Reply

-- `dirty_since` is set once in a dirty period.
unfoldable pub enqueue_script : Text → ℤ → ℕ → Redis → Reply × Redis
enqueue_script post d now r = (
  elim (lookup post r.dirty) [ none ↦ integer (pos 1) | some _ ↦ integer (pos 0) ],
  record r {
    delta = (hincrby post d r.delta).1;
    dirty = insert post tt r.dirty;
    dirty_at = insert post now r.dirty_at;
    dirty_since = elim (lookup post r.dirty_since) [
      | none ↦ insert post now r.dirty_since
      | some _ ↦ r.dirty_since
    ];
  },
)

-- The value under which `processing_batch` holds a batch.
unfoldable pub batch_value : Text → ℤ → Text
batch_value post d = post ++ b':' ∷ format_int d

abbrev pub since_or : ℕ → Option ℕ → ℕ
since_or dirty_at none = dirty_at
since_or dirty_at (some t) = t

-- The first part of the claim script: the time of the next flush, if it has not come.
unfoldable pub not_ready_until : Text → ℕ → ℕ → ℕ → Redis → Option ℕ
not_ready_until post quiet longest now r = elim (lookup post r.dirty_at) [
  | none ↦ none
  | some dirty_at ↦
      let next_flush = dirty_at + quiet in
      let max_flush = since_or dirty_at (lookup post r.dirty_since) + longest in
      let next = if ltb max_flush next_flush then max_flush else next_flush in
      if ltb now next then some next else none
]

-- The rest of it: the pending delta of the post becomes a batch.
unfoldable pub take_delta : Text → Text → Redis → Reply × Redis
take_delta post batch r = elim (lookup post r.delta) [
  | none ↦ (integer (pos 0), clear_dirty post r)
  | some d ↦ (
    bulk (format_int d),
    clear_dirty post (record r {
      delta = erase post r.delta;
      processing_batch = insert batch (batch_value post d) r.processing_batch;
      processing_sum = (hincrby post d r.processing_sum).1;
      processing_batches = insert batch tt r.processing_batches;
    }),
  )
]

unfoldable pub claim_script : Text → ℕ → ℕ → ℕ → Text → Redis → Reply × Redis
unfolding not_ready_until take_delta
claim_script post quiet longest now batch r = elim (not_ready_until post quiet longest now r) [
  | some next ↦ (bulk (codes "__not_ready__"), record r { schedule = insert post next r.schedule })
  | none ↦ take_delta post batch r
]

-- `tonumber(text) or 0`; Lua reads the decimal integers that `HINCRBY` writes.
unfoldable pub number_or_zero : Text → ℤ
number_or_zero t = elim (decimal t) [ none ↦ pos 0 | some n ↦ n ]

unfoldable pub clear_script : Text → Redis → Reply × Redis
clear_script batch r = elim (lookup batch r.processing_batch) [
  | none ↦ (integer (pos 0), record r { processing_batches = erase batch r.processing_batches })
  | some raw ↦ elim (cut b':' raw) [
    | none ↦ (
      integer (pos 0),
      record r {
        processing_batch = erase batch r.processing_batch;
        processing_batches = erase batch r.processing_batches;
      },
    )
    | some (post, delta_text) ↦
        let d = number_or_zero delta_text in
        let (current, sums) = hincrby post (pos 0 -ℤ d) r.processing_sum in
        (
          bulk post,
          record r {
            processing_batch = erase batch r.processing_batch;
            processing_sum = if is_zero current then erase post sums else sums;
            processing_batches = erase batch r.processing_batches;
          },
        )
  ]
]
