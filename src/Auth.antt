-- ===== src/Auth.antt =====
-- comment-service/internal/biz/auth.go, comment-service/internal/data/auth.go and
-- comment-student/internal/auth/auth.go: accounts, refresh tokens and access tokens.
pub mod State
pub mod Repo
pub mod Usecase
pub mod Verify
pub mod Rotation
pub mod SingleUse
pub mod Spent
pub mod Access
pub mod Renewal
pub mod Tests
