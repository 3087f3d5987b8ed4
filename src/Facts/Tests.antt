-- ===== src/Facts/Tests.antt =====
-- Likes and comments at concrete inputs.
use comment_project.Common.{inl, ◌≡◌, refl, true, false, some, [], ◌∷◌}
use comment_project.Common.Int.{ℤ, negsuc, pos, ◌+ℤ◌, int_eq, int_beq}
use comment_project.Common.Dict.{lookup, Distinct}
use comment_project.Common.Text.{codes}
use comment_project.Common.Outcome.{answers, fails, unheard}
use comment_project.Counter.State.{post_comment, Store, empty_redis}
use comment_project.Counter.Stored.{count_of}
use comment_project.Facts.Likes.{Likes, like_key, like_key_eq}
use comment_project.Facts.LikeCount.{IsCounted as IsLikeCounted}
use comment_project.Facts.Comments.{
  Comment, live, reject, Comments, new_comment, create_comment, delete_comment, audit_comment,
}
use comment_project.Facts.CommentCount.{
  IsCounted, create_comment-fact, delete_comment-fact, delete_comment-raced, comment_fact,
  audit_comment-fact,
}
use comment_project.Facts.Record.{
  record_comment_delta, record_comment_delta-cases, pending_of, count_after,
}

abbrev likes : Likes
likes = (like_key (pos 7) (pos 1), true) ∷ (like_key (pos 7) (pos 2), false) ∷ []

abbrev comments : Comments
comments = (pos 30, new_comment (pos 7) (pos 1)) ∷ []

comments-Distinct : Distinct comments
unfolding lookup
comments-Distinct = (refl, tt)

create_comment-fact_example :
    IsCounted comments (create_comment true (pos 31) (pos 7) (pos 2) comments)
create_comment-fact_example =
    create_comment-fact true (pos 31) (pos 7) (pos 2) comments comments-Distinct

its_comment : live (lookup (pos 30) comments) ≡ some (new_comment (pos 7) (pos 1))
unfolding lookup int_beq
its_comment = refl

delete_comment-fact_example :
    IsCounted comments
      (delete_comment answers (some (new_comment (pos 7) (pos 1))) (pos 30) comments)
delete_comment-fact_example =
    delete_comment-fact answers (some (new_comment (pos 7) (pos 1))) (pos 30) comments
      comments-Distinct (λ h. cc h) (inl its_comment)

-- the comment, rejected after the deletion has read it
abbrev rejected : Comment
rejected = reject (pos 9) (codes "spam") (new_comment (pos 7) (pos 1))

abbrev rejected_comments : Comments
rejected_comments = (pos 30, rejected) ∷ []

rejected_found : lookup (pos 30) rejected_comments ≡ some rejected
unfolding lookup int_beq
rejected_found = refl

rejected-Distinct : Distinct rejected_comments
unfolding lookup
rejected-Distinct = (refl, tt)

delete_comment-raced_example :
    let e =
      delete_comment answers (some (new_comment (pos 7) (pos 1))) (pos 30) rejected_comments in
    (e.delta ≡ negsuc 0) × ((q : ℤ) → comment_fact q e.comments ≡ comment_fact q rejected_comments)
delete_comment-raced_example =
    delete_comment-raced (pos 30) (new_comment (pos 7) (pos 1)) rejected rejected_comments
      rejected-Distinct refl rejected_found refl refl

audit_comment-fact_example :
    IsCounted comments (
      audit_comment (some (new_comment (pos 7) (pos 1))) (pos 9) (pos 30) 2 (codes "spam") comments)
audit_comment-fact_example =
    audit_comment-fact (some (new_comment (pos 7) (pos 1))) (pos 9) (pos 30) 2 (codes "spam")
      comments comments-Distinct

abbrev idle : Store
idle = record {
  redis = empty_redis;
  db = record { counter_batch = []; post_counter = []; counter_reconcile_log = [] };
}

-- a delta whose write to `post_counter` fails
record_comment_delta-cases_example :
    let answered = record_comment_delta answers fails (pos 7) (pos 1) 1000 idle in
    let failed = record_comment_delta fails fails (pos 7) (pos 1) 1000 idle in
    let lost = record_comment_delta unheard fails (pos 7) (pos 1) 1000 idle in
    let booked = count_after fails (count_of post_comment (pos 7) idle.db.post_counter) (pos 1) in
    (pending_of (pos 7) answered ≡ pending_of (pos 7) idle +ℤ pos 1)
    × (answered.db ≡ idle.db)
    × (failed.redis ≡ idle.redis)
    × (count_of post_comment (pos 7) failed.db.post_counter ≡ booked)
    × (pending_of (pos 7) lost ≡ pending_of (pos 7) idle +ℤ pos 1)
    × (count_of post_comment (pos 7) lost.db.post_counter ≡ booked)
record_comment_delta-cases_example = record_comment_delta-cases fails (pos 7) (pos 1) 1000 idle refl
