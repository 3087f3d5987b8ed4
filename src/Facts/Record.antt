-- ===== src/Facts/Record.antt =====
-- How a comment's delta is recorded (`recordPostCommentCountDelta`, data/post_comment_counter.go): in
-- Redis, or at once in `post_counter` where the enqueue ends in an error.
use comment_project.Common.{ℕ, ◌≡◌, ◌∙◌, refl, ap, inl, inr, false, Bool-cases}
use comment_project.Common.Int.{ℤ, ◌+ℤ◌, int_eq, is_zero, at_least_zero}
use comment_project.Common.Dict.{text_eq, lookup, lookup-insert_self}
use comment_project.Common.Text.{format_int}
use comment_project.Common.Outcome.{Outcome, answers, fails, unheard}
use comment_project.Counter.State.{post_comment, Redis, Db, Store, or_zero, hincrby}
use comment_project.Counter.Scripts.{Reply, integer, bulk, enqueue_script}
use comment_project.Counter.Read.{
  enqueue_delta, Enqueued, added, notified, enqueue_error, read_added,
}
use comment_project.Counter.Flush.{Error, redis_error}
use comment_project.Counter.Batches.{book_delta}
use comment_project.Counter.Stored.{count_of, book_delta-count_of}

-- What is done with the outcome of the enqueue; the write to `post_counter` has one of its own.
unfoldable pub or_book : Outcome → ℤ → ℤ → Enqueued × Redis → Db → Store
unfolding book_delta
or_book fails post d (enqueue_error e, r) db = record { redis = r; db = db }
or_book _ post d (enqueue_error e, r) db = record {
  redis = r;
  db = record db { post_counter = book_delta post_comment post d db.post_counter };
}
or_book _ post d (_, r) db = record { redis = r; db = db }

unfoldable pub record_comment_delta : Outcome → Outcome → ℤ → ℤ → ℕ → Store → Store
unfolding enqueue_delta or_book
record_comment_delta enqueue_outcome write_outcome post d now s =
    or_book write_outcome post d (enqueue_delta enqueue_outcome post d now s.redis) s.db

abbrev pub pending_of : ℤ → Store → ℤ
pending_of post s = or_zero (lookup (format_int post) s.redis.delta)

enqueued-pending :
    (post d : ℤ) (now : ℕ) (s : Store)
    → or_zero (lookup (format_int post) (enqueue_script (format_int post) d now s.redis).1.delta)
      ≡ pending_of post s +ℤ d
unfolding enqueue_script hincrby
enqueued-pending post d now s =
    ap or_zero (lookup-insert_self (format_int post) (pending_of post s +ℤ d) s.redis.delta)

book_added :
    (write : Outcome) (post d : ℤ) (r : Redis) (db : Db)
    → or_book write post d (added, r) db ≡ record { redis = r; db = db }
unfolding or_book
book_added answers post d r db = refl
book_added fails post d r db = refl
book_added unheard post d r db = refl

book_notified :
    (write : Outcome) (post d : ℤ) (r : Redis) (db : Db)
    → or_book write post d (notified, r) db ≡ record { redis = r; db = db }
unfolding or_book
book_notified answers post d r db = refl
book_notified fails post d r db = refl
book_notified unheard post d r db = refl

-- every reply of the script counts as enqueued
book_reply :
    (write : Outcome) (post d : ℤ) (reply : Reply) (r : Redis) (db : Db)
    → or_book write post d (read_added reply, r) db ≡ record { redis = r; db = db }
unfolding or_book
book_reply write post d (bulk t) r db = book_added write post d r db
book_reply write post d (integer n) r db = elim (Bool-cases (is_zero n)) [
  | inl z ↦ rw z (book_added write post d r db)
  | inr nz ↦ rw nz (book_notified write post d r db)
]

answered-store :
    (write : Outcome) (post d : ℤ) (now : ℕ) (s : Store)
    → is_zero d ≡ false
    → record_comment_delta answers write post d now s
      ≡ record { redis = (enqueue_script (format_int post) d now s.redis).1; db = s.db }
unfolding record_comment_delta enqueue_delta
answered-store write post d now s nz =
    rw nz (book_reply write post d (enqueue_script (format_int post) d now s.redis).0 _ s.db)

-- The count after the write to `post_counter`.
abbrev pub count_after : Outcome → ℤ → ℤ → ℤ
count_after fails n d = n
count_after answers n d = at_least_zero (n +ℤ d)
count_after unheard n d = at_least_zero (n +ℤ d)

write-count :
    (write : Outcome) (post d : ℤ) (e : Error) (r : Redis) (db : Db)
    → (count_of post_comment post (or_book write post d (enqueue_error e, r) db).db.post_counter
        ≡ count_after write (count_of post_comment post db.post_counter) d)
      × ((or_book write post d (enqueue_error e, r) db).redis ≡ r)
unfolding or_book
write-count fails post d e r db = (refl, refl)
write-count answers post d e r db =
    ((book_delta-count_of post_comment post d db.post_counter).0, refl)
write-count unheard post d e r db =
    ((book_delta-count_of post_comment post d db.post_counter).0, refl)

-- A recorded delta other than zero is pending in Redis if the script call answers, and nothing is
-- booked. If the call fails without an effect, it is booked at once in `post_counter`, and if that
-- write fails too, it is nowhere. If only the answer of the script is lost, it is pending, and booked
-- as well unless the write fails, and so counts twice. A write whose own answer is lost books too.
pub record_comment_delta-cases :
    (write : Outcome) (post d : ℤ) (now : ℕ) (s : Store)
    → is_zero d ≡ false
    → let answered = record_comment_delta answers write post d now s in
      let failed = record_comment_delta fails write post d now s in
      let lost = record_comment_delta unheard write post d now s in
      let booked = count_after write (count_of post_comment post s.db.post_counter) d in
      (pending_of post answered ≡ pending_of post s +ℤ d)
      × (answered.db ≡ s.db)
      × (failed.redis ≡ s.redis)
      × (count_of post_comment post failed.db.post_counter ≡ booked)
      × (pending_of post lost ≡ pending_of post s +ℤ d)
      × (count_of post_comment post lost.db.post_counter ≡ booked)
unfolding record_comment_delta enqueue_delta
record_comment_delta-cases write post d now s nz =
    let stored = answered-store write post d now s nz in
    let r = (enqueue_script (format_int post) d now s.redis).1 in
    let failed = write-count write post d redis_error s.redis s.db in
    let lost = write-count write post d redis_error r s.db in
    (
      ap (pending_of post) stored ∙ enqueued-pending post d now s,
      ap (λ (t : Store). t.db) stored,
      rw nz failed.1,
      rw nz failed.0,
      rw nz (
          ap (λ (x : Redis). or_zero (lookup (format_int post) x.delta)) lost.1
          ∙ enqueued-pending post d now s),
      rw nz lost.0,
    )
