-- ===== src/Facts.antt =====
-- comment-service/internal/data: the likes and comments that the counters count, and the delta that
-- each write of them records.
pub mod Likes
pub mod LikeCount
pub mod Comments
pub mod CommentCount
pub mod Record
pub mod Tests
