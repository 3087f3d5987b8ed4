-- ===== src/Counter/Stored.antt =====
-- The counts that `post_counter` holds, under the booking of a delta.
use comment_project.Common.{◌≡◌, ◌≢◌, refl, inl, inr, Option-cases}
use comment_project.Common.Int.{ℤ, pos, negsuc, ◌+ℤ◌, int_laws, int_eq, at_least_zero}
use comment_project.Common.Dict.{Dict, lookup, lookup-insert_self, lookup-insert_ne}
use comment_project.Counter.State.{
  Kind, post_like, post_comment, Counts, column, set_column, zero_counts,
}
use comment_project.Counter.Batches.{book_delta, initial_values}
use comment_project.Counter.Read.{stored_counts}

-- The count of a post in a column, zero without a row.
abbrev pub count_of : Kind → ℤ → Dict ℤ Counts → ℤ
count_of kind post counters = column kind (stored_counts (lookup post counters))

pub column-set_column :
    (kind other : Kind) (n : ℤ) (c : Counts)
    → (column kind (set_column kind n c) ≡ n)
      × (other ≢ kind → column other (set_column kind n c) ≡ column other c)
column-set_column post_like post_like n c = (refl, λ h. absurd (h refl))
column-set_column post_like post_comment n c = (refl, λ h. refl)
column-set_column post_comment post_like n c = (refl, λ h. refl)
column-set_column post_comment post_comment n c = (refl, λ h. absurd (h refl))

column-initial_values :
    (kind other : Kind) (d : ℤ)
    → (column kind (initial_values kind d) ≡ at_least_zero d)
      × (other ≢ kind → column other (initial_values kind d) ≡ pos 0)
unfolding initial_values
column-initial_values post_like post_like (pos n) = (refl, λ h. absurd (h refl))
column-initial_values post_like post_like (negsuc n) = (refl, λ h. absurd (h refl))
column-initial_values post_like post_comment (pos n) = (refl, λ h. refl)
column-initial_values post_like post_comment (negsuc n) = (refl, λ h. refl)
column-initial_values post_comment post_like (pos n) = (refl, λ h. refl)
column-initial_values post_comment post_like (negsuc n) = (refl, λ h. refl)
column-initial_values post_comment post_comment (pos n) = (refl, λ h. absurd (h refl))
column-initial_values post_comment post_comment (negsuc n) = (refl, λ h. absurd (h refl))

pub zero_+ℤ : (d : ℤ) → pos 0 +ℤ d ≡ d
zero_+ℤ d = grind int_laws

pub column-zero : (kind : Kind) → column kind zero_counts ≡ pos 0
column-zero post_like = refl
column-zero post_comment = refl

-- Booking a delta moves the column of its kind by it, but not below zero, whether the post has a
-- row or not; the other column and the other posts keep their counts.
pub book_delta-count_of :
    (kind : Kind) (post d : ℤ) (counters : Dict ℤ Counts)
    → (count_of kind post (book_delta kind post d counters)
        ≡ at_least_zero (count_of kind post counters +ℤ d))
      × ((other : Kind)
          → other ≢ kind
          → count_of other post (book_delta kind post d counters) ≡ count_of other post counters)
      × ((q : ℤ) → post ≢ q → lookup q (book_delta kind post d counters) ≡ lookup q counters)
unfolding book_delta stored_counts
book_delta-count_of kind post d counters = elim (Option-cases (lookup post counters)) [
  | inl e ↦
      let self = lookup-insert_self post (initial_values kind d) counters in
      (
        rw (e, book_delta)
            (rw (self, column-zero kind, zero_+ℤ d) ((column-initial_values kind kind d).0)),
        (λ other h.
            rw (e, book_delta)
              (rw (self, column-zero other) ((column-initial_values kind other d).1 h))),
        λ q h. rw (e, book_delta) (lookup-insert_ne q post _ counters h),
      )
  | inr (c, e) ↦
      let self =
        lookup-insert_self post (set_column kind (at_least_zero (column kind c +ℤ d)) c) counters in
      (
        rw (e, book_delta) (rw self ((column-set_column kind kind _ c).0)),
        (λ other h. rw (e, book_delta) (rw self ((column-set_column kind other _ c).1 h))),
        λ q h. rw (e, book_delta) (lookup-insert_ne q post _ counters h),
      )
]
