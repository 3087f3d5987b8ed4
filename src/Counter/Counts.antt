-- ===== src/Counter/Counts.antt =====
-- The counts in `post_counter` and the counts shown, under booking and reconciling.
use comment_project.Common.{
  ◌≡◌, ◌≢◌, refl, inl, inr, ap, true, false, arith, Option-cases, Bool-cases,
}
use comment_project.Common.Int.{ℤ, pos, negsuc, int_laws, int_eq, int_beq, int_beq_iff, is_zero}
use comment_project.Common.Dict.{Dict, text_eq, lookup, lookup-insert_self, lookup-insert_ne}
use comment_project.Common.Text.{format_int}
use comment_project.Counter.State.{Kind, Db, Store, Counts, set_column, or_zero, zero_counts}
use comment_project.Counter.Flush.{answers}
use comment_project.Counter.Ledger.{Inv, account}
use comment_project.Counter.Conservation.{IsSettled, unbooked_account}
use comment_project.Counter.Stored.{count_of, column-set_column}
use comment_project.Counter.Read.{stored_counts, counter_delta}
use comment_project.Counter.Reconcile.{
  verdict, can_reconcile, reconcile_single, unchanged, overwrite, record_log,
}

-- The effect of the statement that overwrites a count.
overwrite-count_of :
    (kind : Kind) (post fact : ℤ) (counters : Dict ℤ Counts)
    → (count_of kind post (overwrite kind post fact counters) ≡ fact)
      × ((other : Kind)
          → other ≢ kind
          → count_of other post (overwrite kind post fact counters) ≡ count_of other post counters)
      × ((q : ℤ) → post ≢ q → lookup q (overwrite kind post fact counters) ≡ lookup q counters)
unfolding overwrite stored_counts
overwrite-count_of kind post fact counters = elim (Option-cases (lookup post counters)) [
  | inl e ↦
      let self = lookup-insert_self post (set_column kind fact zero_counts) counters in
      (
        rw (e, overwrite) (rw self ((column-set_column kind kind fact zero_counts).0)),
        (λ other h.
            rw (e, overwrite) (rw self ((column-set_column kind other fact zero_counts).1 h))),
        λ q h. rw (e, overwrite) (lookup-insert_ne q post _ counters h),
      )
  | inr (c, e) ↦
      let self = lookup-insert_self post (set_column kind fact c) counters in
      (
        rw (e, overwrite) (rw self ((column-set_column kind kind fact c).0)),
        (λ other h. rw (e, overwrite) (rw self ((column-set_column kind other fact c).1 h))),
        λ q h. rw (e, overwrite) (lookup-insert_ne q post _ counters h),
      )
]

abbrev pub reconciled : Kind → ℤ → ℤ → Db → Db
reconciled kind post fact db = (reconcile_single answers kind post fact db).1

reconcile_same :
    (kind : Kind) (post fact : ℤ) (db : Db)
    → count_of kind post db.post_counter ≡ fact
    → reconcile_single answers kind post fact db ≡ (unchanged, db)
unfolding reconcile_single stored_counts
reconcile_same kind post fact db h =
    let same : int_beq (count_of kind post db.post_counter) fact ≡ true =
      (int_beq_iff _ fact).1 h in
    rw (same, reconcile_single) refl

reconciled-post_counter :
    (kind : Kind) (post fact : ℤ) (db : Db)
    → int_beq (count_of kind post db.post_counter) fact ≡ false
    → (reconciled kind post fact db).post_counter ≡ overwrite kind post fact db.post_counter
unfolding reconcile_single stored_counts record_log
reconciled-post_counter kind post fact db h = rw (h, reconciled) refl

-- A reconciliation whose write answers leaves the count of the facts in the column of its kind, and
-- keeps the other column and the other posts; a second one finds nothing to change.
pub reconcile_single-count_of :
    (kind : Kind) (post fact : ℤ) (db : Db)
    → (count_of kind post (reconciled kind post fact db).post_counter ≡ fact)
      × ((other : Kind)
          → other ≢ kind
          → count_of other post (reconciled kind post fact db).post_counter
            ≡ count_of other post db.post_counter)
      × ((q : ℤ)
          → post ≢ q
          → lookup q (reconciled kind post fact db).post_counter ≡ lookup q db.post_counter)
      × (reconcile_single answers kind post fact (reconciled kind post fact db)
          ≡ (unchanged, reconciled kind post fact db))
reconcile_single-count_of kind post fact db =
    elim (Bool-cases (int_beq (count_of kind post db.post_counter) fact)) [
      | inl same ↦
          let h = (int_beq_iff _ fact).0 same in
          let e : reconciled kind post fact db ≡ db =
            ap (λ r. r.1) (reconcile_same kind post fact db h) in
          (
            cc (e, h),
            (λ k o. cc e),
            (λ q o. cc e),
            reconcile_same kind post fact (reconciled kind post fact db) (cc (e, h)),
          )
      | inr other ↦
          let e = reconciled-post_counter kind post fact db other in
          let (self, columns, posts) = overwrite-count_of kind post fact db.post_counter in
          (
            rw e self,
            (λ k o. rw e (columns k o)),
            (λ q o. rw e (posts q o)),
            reconcile_same kind post fact (reconciled kind post fact db) (rw e self),
          )
    ]

pub is_zero-eq : (a : ℤ) → is_zero a ≡ true → a ≡ pos 0
is_zero-eq (pos n) h = ground (arith, h)
is_zero-eq (negsuc n) h = absurd (cc h)

verdict-zero :
    (kind : Kind) (q : ℤ) (s : Store)
    → verdict kind q s ≡ can_reconcile
    → (or_zero (lookup (format_int q) s.redis.delta) ≡ pos 0)
      × (or_zero (lookup (format_int q) s.redis.processing_sum) ≡ pos 0)
unfolding verdict
verdict-zero kind q s h =
    elim (Bool-cases (is_zero (or_zero (lookup (format_int q) s.redis.delta)))) [
      | inr e ↦ absurd (ground (arith, h, e))
      | inl e ↦
          elim (Bool-cases (is_zero (or_zero (lookup (format_int q) s.redis.processing_sum)))) [
            | inr e' ↦ absurd (ground (arith, h, e, e'))
            | inl e' ↦ (is_zero-eq _ e, is_zero-eq _ e')
          ]
    ]

-- In a store with the ledger's invariant where no booked batch waits for its clearing, the account
-- of a post that may be reconciled is its stored count: no delta is pending and none is open.
pub verdict-account :
    (kind : Kind) (q : ℤ) (s : Store)
    → Inv kind s
    → IsSettled kind s
    → verdict kind q s ≡ can_reconcile
    → account kind q s ≡ count_of kind q s.db.post_counter
unfolding counter_delta
verdict-account kind q s v settled h =
    let (pending, processing) = verdict-zero kind q s h in
    grind (int_laws, unbooked_account kind s q v settled, pending, processing)
