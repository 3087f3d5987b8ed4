-- ===== src/Counter/Stuck.antt =====
-- A post whose pending delta is zero when it is claimed: its likes and unlikes cancel out.
use comment_project.Common.{
  ℕ, ◌≡◌, refl, ap, inl, inr, none, some, false, List, ◌∷◌, arith, Option-cases,
}
use comment_project.Common.Int.{ℤ, pos}
use comment_project.Common.Dict.{text_eq, lookup, text_beq, lookup-insert_self}
use comment_project.Common.Text.{Text, codes, format_int, parse_int, parse_int-format_int, in_int64}
use comment_project.Common.Trim.{is_blank}
use comment_project.Counter.State.{Kind, Redis, Store, quiet_period, max_delay, clear_dirty}
use comment_project.Counter.Scripts.{claim_script, take_delta, not_ready_until, batch_value}
use comment_project.Counter.Flush.{
  Outcome, answers, Error, invalid_batch, empty, claim_delta, read_claim, parse_claim,
}
use comment_project.Counter.Batches.{
  parse_batch_value, recover_batch, recover_batches, recover_error,
}
use comment_project.Counter.Ledger.Content.{cut-batch_value}

parse_int-zero : parse_int (format_int (pos 0)) ≡ some (pos 0)
unfolding in_int64
parse_int-zero = parse_int-format_int (pos 0) refl

not_a_marker : text_beq (format_int (pos 0)) (codes "__not_ready__") ≡ false
unfolding format_int text_beq
not_a_marker = refl

parse_zero_batch : (p : ℤ) → parse_batch_value (batch_value (format_int p) (pos 0)) ≡ none
unfolding parse_batch_value
parse_zero_batch p = elim (Option-cases (parse_int (format_int p))) [
  | inl n ↦ ground (arith, cut-batch_value p (pos 0), n)
  | inr (q, e) ↦ ground (arith, cut-batch_value p (pos 0), e, parse_int-zero)
]

-- The claim of a zero delta is `empty`, so that no batch is inserted for it, but leaves an entry in
-- `processing_batch`.
zero_claim :
    (p : ℤ) (now : ℕ) (batch : Text) (r : Redis)
    → lookup (format_int p) r.delta ≡ some (pos 0)
    → not_ready_until (format_int p) quiet_period max_delay now r ≡ none
    → ((claim_delta answers (format_int p) now batch r).0 ≡ empty)
      × (lookup batch (claim_delta answers (format_int p) now batch r).1.processing_batch
          ≡ some (batch_value (format_int p) (pos 0)))
unfolding claim_delta claim_script take_delta clear_dirty
zero_claim p now batch r pending ready =
    rw (ready, claim_script)
      (rw (pending, take_delta)
        (
          unfold read_claim parse_claim in rw (not_a_marker, parse_int-zero) refl,
          lookup-insert_self batch _ r.processing_batch,
        ))

zero_batch_error :
    (kind : Kind) (io co : Outcome) (p : ℤ) (batch : Text) (now : ℕ) (s : Store)
    → lookup batch s.redis.processing_batch ≡ some (batch_value (format_int p) (pos 0))
    → recover_batch io co kind batch now s ≡ (recover_error invalid_batch, s)
unfolding recover_batch
zero_batch_error kind io co p batch now s found =
    rw (found, recover_batch) (rw (parse_zero_batch p) refl)

recover_batches-error :
    (kind : Kind) (now : ℕ) (batch : Text) (rest : List Text) (counts : ℕ × ℕ) (s : Store)
    (e : Error)
    → is_blank batch ≡ false
    → recover_batch answers answers kind batch now s ≡ (recover_error e, s)
    → recover_batches kind now (batch ∷ rest) counts s ≡ (some e, counts, s)
unfolding recover_batches
recover_batches-error kind now batch rest (n, m) s e named h =
    let h0 = ap (λ x. x.0) h in let h1 = ap (λ x. x.1) h in rw named (rw h0 (cc h1))

-- Where the pending delta of a post is zero when its claim is due, the claim answers that it is
-- empty, and a later pass of the recovery that has come to its batch ends there with an error,
-- whatever ids follow, and leaves the store as it is.
pub zero_claim-recover_batches :
    (kind : Kind) (p : ℤ) (now later : ℕ) (batch : Text) (rest : List Text) (counts : ℕ × ℕ)
    (s : Store)
    → lookup (format_int p) s.redis.delta ≡ some (pos 0)
    → not_ready_until (format_int p) quiet_period max_delay now s.redis ≡ none
    → is_blank batch ≡ false
    → let (claim, r) = claim_delta answers (format_int p) now batch s.redis in
      (claim ≡ empty)
      × (recover_batches kind later (batch ∷ rest) counts (record s { redis = r })
          ≡ (some invalid_batch, counts, record s { redis = r }))
zero_claim-recover_batches kind p now later batch rest counts s pending ready named =
    let (empty_claim, entry) = zero_claim p now batch s.redis pending ready in
    let after = record s { redis = (claim_delta answers (format_int p) now batch s.redis).1 } in
    (
      empty_claim,
      recover_batches-error kind later batch rest counts after invalid_batch named
          (zero_batch_error kind answers answers p batch later after entry),
    )
