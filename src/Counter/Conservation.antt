-- ===== src/Counter/Conservation.antt =====
-- What becomes of the deltas, in whatever order the scripts and statements run.
use comment_project.Common.{◌≡◌, refl, inl, inr, none, some, [], true, Bool-cases}
use comment_project.Common.Int.{ℤ, pos, ◌+ℤ◌, int_laws, int_eq}
use comment_project.Common.Dict.{text_eq, lookup}
use comment_project.Common.Sum.{sum_by, sum_by_equal_on}
use comment_project.Common.Text.{Text, format_int}
use comment_project.Counter.State.{Kind, Store, Db, empty_redis}
use comment_project.Counter.Read.{counter_delta}
use comment_project.Counter.Stored.{count_of}
use comment_project.Counter.Batches.{typed_row}
use comment_project.Counter.Ledger.{
  Inv, Step, enqueue, claim, insert, apply, mark, clear, upkeep, added, account, open_sum,
  open_share, clamped, value_share, is_success,
}
use comment_project.Counter.Ledger.Steps.{enqueue-account, claim-account}
use comment_project.Counter.Ledger.Bookings.{apply-account}
use comment_project.Counter.Ledger.Upkeep.{insert-account, mark-account, clear-account}
use comment_project.Counter.Ledger.Invariant.{upkeep-Inv, enqueue-Inv, claim-Inv, clear-Inv}
use comment_project.Counter.Ledger.Rows.{insert-Inv, apply-Inv, mark-Inv}

-- Every step keeps the ledger's invariant: an unfinished batch of MySQL has an entry with its post
-- and delta in Redis, and `processing_sum` adds up the entries.
pub step-Inv : {kind : Kind} {s t : Store} → Step kind s t → Inv kind s → Inv kind t
step-Inv {kind} {s} (enqueue p d now) v = enqueue-Inv kind s (format_int p) d now v
step-Inv {kind} {s} (claim p now batch f g) v = claim-Inv kind s p now batch v f g
step-Inv {kind} {s} (insert p d batch now g) v = insert-Inv kind s p d batch now v g
step-Inv {kind} {s} (apply batch row now f c) v = apply-Inv kind s batch row.post_id row.delta v
step-Inv {kind} {s} (mark o batch cause now h) v = mark-Inv kind s o batch cause now v h
step-Inv {kind} {s} (clear batch h) v = clear-Inv kind s batch v h
step-Inv {kind} {s} (upkeep r d b p) v = upkeep-Inv kind s r v b p

-- A step changes the account of a post by the delta that it adds to the post, which is none unless
-- it is an enqueue, and by what a booking leaves out below zero.
pub step-account :
    {kind : Kind} {s t : Store} (st : Step kind s t) (q : ℤ)
    → Inv kind s
    → account kind q t ≡ account kind q s +ℤ added st q +ℤ clamped st q
unfolding added clamped
step-account {kind} {s} (enqueue p d now) q v = grind (int_laws, enqueue-account kind s p d q now)
step-account {kind} {s} (claim p now batch f g) q v =
    grind (int_laws, claim-account kind s p q now batch f g)
step-account {kind} {s} (insert p d batch now g) q v =
    grind (int_laws, insert-account kind s p d q batch now)
step-account {kind} {s} (apply batch row now f c) q v =
    grind (int_laws, apply-account kind s q batch row now v f c)
step-account {kind} {s} (mark o batch cause now h) q v =
    grind (int_laws, mark-account kind s q o batch cause now v h)
step-account {kind} {s} (clear batch h) q v = grind (int_laws, clear-account kind s q batch v h)
step-account {kind} {s} (upkeep r d b p) q v = unfold account open_sum in rw (d, b) (grind int_laws)

pub data Run (kind : Kind) (s : Store) : Store → Type 0 where
  here : Run kind s s
  next : {t u : Store} → Run kind s t → Step kind t u → Run kind s u

-- The deltas of a post that the enqueues of a run add.
unfoldable pub total : {kind : Kind} {s t : Store} → Run kind s t → ℤ → ℤ
unfolding added
total here q = pos 0
total (next r st) q = total r q +ℤ added st q

-- What the bookings of a run leave out below zero.
unfoldable pub total_clamped : {kind : Kind} {s t : Store} → Run kind s t → ℤ → ℤ
unfolding clamped
total_clamped here q = pos 0
total_clamped (next r st) q = total_clamped r q +ℤ clamped st q

pub run-Inv : {kind : Kind} {s t : Store} → Run kind s t → Inv kind s → Inv kind t
run-Inv here v = v
run-Inv (next r st) v = step-Inv st (run-Inv r v)

-- Over every run from a store with the ledger's invariant, in any interleaving of the steps, none of
-- which marks a booked batch as failed: what is pending, what is in open batches and what
-- `post_counter` holds for a post grow together by exactly the deltas that were enqueued for the post,
-- and by what bookings that would fall below zero leave out.
pub run-account :
    {kind : Kind} {s t : Store} (r : Run kind s t) (q : ℤ)
    → Inv kind s
    → account kind q t ≡ account kind q s +ℤ total r q +ℤ total_clamped r q
unfolding total total_clamped
run-account here q v = grind int_laws
run-account (next r st) q v = grind (int_laws, run-account r q v, step-account st q (run-Inv r v))

-- No booked batch still has an entry in Redis.
abbrev pub IsSettled : Kind → Store → Type 0
IsSettled kind s =
    (batch : Text)
    → is_success (typed_row kind (lookup batch s.db.counter_batch)) ≡ true
    → lookup batch s.redis.processing_batch ≡ none

open_share_settled :
    (kind : Kind) (s : Store) (post batch raw : Text)
    → IsSettled kind s
    → lookup batch s.redis.processing_batch ≡ some raw
    → open_share kind post s.db.counter_batch batch raw ≡ value_share post batch raw
unfolding open_share
open_share_settled kind s post batch raw settled found =
    elim (Bool-cases (is_success (typed_row kind (lookup batch s.db.counter_batch)))) [
      | inl success ↦ absurd (cc (settled batch success, found))
      | inr unbooked ↦ rw unbooked refl
    ]

-- In a store with the ledger's invariant where no booked batch waits for its clearing, the delta that
-- the service adds to a stored count and that count are together the account of the post: what is
-- pending, what is in open batches and what `post_counter` holds.
pub unbooked_account :
    (kind : Kind) (s : Store) (q : ℤ)
    → Inv kind s
    → IsSettled kind s
    → counter_delta q s.redis +ℤ count_of kind q s.db.post_counter ≡ account kind q s
unfolding account open_sum counter_delta
unbooked_account kind s q v settled = grind (
  int_laws,
  v.summed (format_int q),
  sum_by_equal_on (open_share kind (format_int q) s.db.counter_batch) (value_share (format_int q))
      s.redis.processing_batch v.batches_distinct
      (λ batch raw found. open_share_settled kind s (format_int q) batch raw settled found),
)

-- A store in which no delta was ever enqueued.
abbrev pub fresh : Db → Store
fresh db = record { redis = empty_redis; db = record db { counter_batch = [] } }

pub fresh-Inv : (kind : Kind) (db : Db) → Inv kind (fresh db)
unfolding lookup sum_by
fresh-Inv kind db = record {
  batches_distinct = tt;
  rows_distinct = tt;
  unfinished = λ b row found k o. cc;
  written = λ b raw found. cc;
  summed = λ post. refl;
}
