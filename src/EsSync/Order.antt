-- ===== src/EsSync/Order.antt =====
-- The external version of a document is the order of the binlog, as long as it fits.
use comment_project.Common.{
  ℕ, ◌+◌, ◌-◌, ◌*◌, ◌/◌, ◌≤◌, ◌<◌, ◌≡◌, ◌≢◌, ◌⊎◌, ◌↔◌, ap, inl, inr, true, false, some, arith,
  Bool-cases, ltb,
}
use comment_project.Common.Int.{pos, int_beq_iff}
use comment_project.Common.Dict.{text_beq, text_beq_iff}
use comment_project.Common.Text.{codes, max_int64}
use comment_project.Common.Trim.{has_prefix}
use comment_project.EsSync.{
  Version, binlog_file_seq, is_newer, factor, binlog_version, external_version,
}

binlog_version-value :
    (m p : ℕ) (x : ℕ)
    → p ≤ max_int64
    → binlog_version (some (pos m)) (pos p) ≡ some x
    → (x ≡ m * factor + p) × (x ≤ max_int64)
unfolding binlog_version
binlog_version-value m p x fits h = elim (Bool-cases (ltb ((max_int64 - p) / factor) m)) [
  | inl over ↦ absurd (cc (rw over at h))
  | inr within ↦ ground (arith, rw within at h, fits, within)
]

-- A version of a binlog with its sequence number and its position.
pub record IsBinlog (v : Version) (m p : ℕ) : Type 0 where
  pub not_kafka : has_prefix (codes "kafka:") v.file ≡ false
  pub sequence : binlog_file_seq v.file ≡ some (pos m)
  pub position : v.position ≡ pos p
  pub in_file : p < factor

binlog-value :
    (v : Version) (m p x : ℕ)
    → IsBinlog v m p
    → external_version v ≡ some x
    → (x ≡ m * factor + p) × (x ≤ max_int64)
unfolding external_version
binlog-value v m p x b h =
    binlog_version-value m p x (omega (arith, b.in_file))
      (rw (b.sequence, b.position) at (rw b.not_kafka at h))

same_file :
    (a b : Version) (m n p q : ℕ) → IsBinlog a m p → IsBinlog b n q → a.file ≡ b.file → m ≡ n
same_file a b m n p q u v e = ground (arith, u.sequence, v.sequence, ap binlog_file_seq e)

newer-same :
    (a b : Version) (m n p q : ℕ)
    → IsBinlog a m p
    → IsBinlog b n q
    → a.file ≡ b.file
    → is_newer a b ≡ ltb q p
unfolding is_newer
newer-same a b m n p q u v e =
    rw ((text_beq_iff a.file b.file).1 e) (rw (u.position, v.position) (ground arith))

newer-sequence :
    (a b : Version) (m n p q : ℕ)
    → IsBinlog a m p
    → IsBinlog b n q
    → a.file ≢ b.file
    → m ≢ n
    → is_newer a b ≡ ltb n m
unfolding is_newer
newer-sequence a b m n p q u v other differ = elim (Bool-cases (text_beq a.file b.file)) [
  | inl same ↦ absurd (other ((text_beq_iff a.file b.file).0 same))
  | inr apart ↦
      rw apart (rw (u.sequence, v.sequence) (ground (arith, differ, int_beq_iff (pos m) (pos n))))
]

-- Of two binlog positions below the factor, in one file or in files of different sequence numbers, the
-- one that is newer is the one with the greater external version, and both versions fit an int64.
pub external_version-is_newer :
    (a b : Version) (m n p q x y : ℕ)
    → IsBinlog a m p
    → IsBinlog b n q
    → (a.file ≡ b.file) ⊎ ((a.file ≢ b.file) × (m ≢ n))
    → external_version a ≡ some x
    → external_version b ≡ some y
    → ((is_newer a b ≡ true) ↔ (y < x)) × (x ≤ max_int64) × (y ≤ max_int64)
external_version-is_newer a b m n p q x y u v files h k =
    let (x_is, x_fits) = binlog-value a m p x u h in
    let (y_is, y_fits) = binlog-value b n q y v k in
    elim files [
      | inl same ↦ ground (
        arith,
        newer-same a b m n p q u v same,
        same_file a b m n p q u v same,
        x_is,
        y_is,
        x_fits,
        y_fits,
      )
      | inr (other, differ) ↦ ground (
        arith,
        newer-sequence a b m n p q u v other differ,
        differ,
        x_is,
        y_is,
        x_fits,
        y_fits,
        u.in_file,
        v.in_file,
      )
    ]
