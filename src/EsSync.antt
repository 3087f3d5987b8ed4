-- ===== src/EsSync.antt =====
-- comment-task/internal/task/es_sync.go: the versions that order the writes of a document.
pub mod Order
pub mod Row
pub mod Index
pub mod Messages
pub mod Retry
pub mod Handlers
pub mod Passes
pub mod Saved
pub mod Canal
pub mod Retried
pub mod Worker
pub mod NoLoss
pub mod Attempts
pub mod Newest
pub mod Documents
pub mod Binlog
pub mod Runs
pub mod Lossless
pub mod Tests
use comment_project.Common.{
  ℕ, ◌+◌, ◌-◌, ◌*◌, ◌/◌, Bool, true, false, ◌&&◌, ◌==◌, Option, none, some, List, [], ◌∷◌, length,
  leb, ltb, if◌then◌else◌,
}
use comment_project.Common.Int.{ℤ, pos, negsuc, ltb_ℤ, int_beq}
use comment_project.Common.Dict.{text_beq}
use comment_project.Common.Text.{Text, codes, parse_int, max_int64}
use comment_project.Common.Trim.{has_prefix, is_empty}

pub record Version : Type 0 where
  pub file : Text
  pub position : ℤ

abbrev pub is_digit : ℕ → Bool
is_digit c = leb b'0' c && leb c b'9'

-- What the expression `(\d+)$` finds: the longest end of digits.
unfoldable pub digit_suffix : Text → Text
digit_suffix [] = []
digit_suffix (c ∷ s) =
    let rest = digit_suffix s in if is_digit c && length rest == length s then c ∷ s else rest

-- `binlogFileSeq`
unfoldable pub binlog_file_seq : Text → Option ℤ
unfolding digit_suffix
binlog_file_seq file = if is_empty (digit_suffix file) then none else parse_int (digit_suffix file)

-- Go's order of strings.
unfoldable pub text_ltb : Text → Text → Bool
text_ltb s [] = false
text_ltb [] (d ∷ t) = true
text_ltb (c ∷ s) (d ∷ t) =
    let rest = text_ltb s t in if ltb c d then true else if ltb d c then false else rest

abbrev pub newer_file : Option ℤ → Option ℤ → Bool → Bool
newer_file (some m) (some n) otherwise = if int_beq m n then otherwise else ltb_ℤ n m
newer_file _ _ otherwise = otherwise

-- `isNewerSyncVersion`
unfoldable pub is_newer : Version → Version → Bool
unfolding binlog_file_seq text_ltb
is_newer incoming current =
    if text_beq incoming.file current.file
    then ltb_ℤ current.position incoming.position
    else newer_file (binlog_file_seq incoming.file) (binlog_file_seq current.file)
        (text_ltb current.file incoming.file)

abbrev pub factor : ℕ
factor = 1000000000000

-- The number that `externalESSyncVersion` writes out, for a sequence number and a position.
unfoldable pub binlog_version : Option ℤ → ℤ → Option ℕ
binlog_version (some (pos m)) (pos p) =
    if ltb ((max_int64 - p) / factor) m then none else some (m * factor + p)
binlog_version _ _ = none

abbrev pub kafka_version : ℤ → Option ℕ
kafka_version (pos p) = if p == max_int64 then none else some (p + 1)
kafka_version (negsuc p) = none

-- `externalESSyncVersion`
unfoldable pub external_version : Version → Option ℕ
unfolding binlog_file_seq binlog_version has_prefix
external_version v =
    if has_prefix (codes "kafka:") v.file
    then kafka_version v.position
    else binlog_version (binlog_file_seq v.file) v.position
