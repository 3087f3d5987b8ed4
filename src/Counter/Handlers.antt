-- ===== src/Counter/Handlers.antt =====
-- The handlers of the task are runs of the ledger's steps, whatever their calls end in.
use comment_project.Common.{
  ℕ, ◌≡◌, ◌∙◌, ap, sym, refl, inl, inr, none, some, false, arith, Option-cases, Bool-cases,
}
use comment_project.Common.Int.{ℤ, pos, is_zero}
use comment_project.Common.Dict.{text_eq, lookup, lookup-insert_self, text_beq}
use comment_project.Common.Text.{Text, format_int, parse_int, decimal, in_int64, decimal-format_int}
use comment_project.Counter.State.{Kind, Store, Redis, clear_dirty, quiet_period, max_delay}
use comment_project.Counter.Scripts.{claim_script, take_delta, not_ready_until, batch_value}
use comment_project.Counter.Flush.{
  Outcome, answers, fails, unheard, Ready, ready, later, Claim, not_ready, empty, claimed,
  claim_error, recheck_ready, parse_claim, read_claim, claim_delta, insert_batch, finish_flush,
  book_claim, claim_and_book, flush_post,
}
use comment_project.Counter.Batches.{parse_batch_value}
use comment_project.Counter.Ledger.{Inv, content, Holds, claim, insert as insert_step, upkeep}
use comment_project.Counter.Ledger.Content.{content-batch_value, cut-batch_value}
use comment_project.Counter.Conservation.{Run, here, next}

parse_int-eq : (t : Text) (z w : ℤ) → decimal t ≡ some z → parse_int t ≡ some w → w ≡ z
unfolding parse_int in_int64
parse_int-eq t (pos n) w d h = ground arith
parse_int-eq t (ℤ.negsuc n) w d h = ground arith

parse_claim-claimed : (d e : ℤ) → parse_claim (format_int d) ≡ claimed e → e ≡ d
unfolding parse_claim
parse_claim-claimed d e h = elim (Option-cases (parse_int (format_int d))) [
  | inl n ↦ ground (arith, n)
  | inr (z, p) ↦
      let same : z ≡ d = parse_int-eq (format_int d) d z (decimal-format_int d) p in
      ground (arith, p, same)
]

take_delta-Holds :
    (p d : ℤ) (batch : Text) (r : Redis)
    → read_claim (take_delta (format_int p) batch r).0 ≡ claimed d
    → Holds (take_delta (format_int p) batch r).1 batch p d
unfolding read_claim take_delta clear_dirty
take_delta-Holds p d batch r h = elim (Option-cases (lookup (format_int p) r.delta)) [
  | inl e ↦ absurd (ground (arith, h, e))
  | inr (d', e) ↦
      let same : d ≡ d' = parse_claim-claimed d' d (ground (arith, h, e)) in
      rw (e, take_delta)
        (record {
          raw = batch_value (format_int p) d';
          found = lookup-insert_self batch (batch_value (format_int p) d') r.processing_batch;
          reads = content-batch_value p d' ∙ ap (λ (z : ℤ). some (format_int p, z)) (sym same);
        })
]

-- A claim that reports a delta has left an entry with it.
claim_script-Holds :
    (p d : ℤ) (now : ℕ) (batch : Text) (r : Redis)
    → read_claim (claim_script (format_int p) quiet_period max_delay now batch r).0 ≡ claimed d
    → Holds (claim_script (format_int p) quiet_period max_delay now batch r).1 batch p d
unfolding claim_script
claim_script-Holds p d now batch r =
    elim (Option-cases (not_ready_until (format_int p) quiet_period max_delay now r)) [
      | inl e ↦ rw (e, claim_script) (take_delta-Holds p d batch r)
      | inr (t, e) ↦
          rw (e, claim_script) (λ h. absurd (unfold read_claim parse_claim text_beq in cc h))
    ]

claim_delta-Holds :
    (o : Outcome) (p d : ℤ) (now : ℕ) (batch : Text) (r : Redis)
    → (claim_delta o (format_int p) now batch r).0 ≡ claimed d
    → Holds (claim_delta o (format_int p) now batch r).1 batch p d
unfolding claim_delta
claim_delta-Holds answers p d now batch r h = claim_script-Holds p d now batch r h
claim_delta-Holds fails p d now batch r h = absurd (cc h)
claim_delta-Holds unheard p d now batch r h = absurd (cc h)

module _ {kind : Kind} {s : Store} where
  claim_delta-Run :
      (o : Outcome) {t : Store} (p : ℤ) (now : ℕ) (batch : Text)
      → lookup batch t.redis.processing_batch ≡ none
      → lookup batch t.db.counter_batch ≡ none
      → Run kind s t
      → Run kind s (record t { redis = (claim_delta o (format_int p) now batch t.redis).1 })
  unfolding claim_delta
  claim_delta-Run answers p now batch f g r = next r (claim p now batch f g)
  claim_delta-Run fails p now batch f g r = r
  claim_delta-Run unheard p now batch f g r = next r (claim p now batch f g)

  finish-Run :
      (o : Outcome) (t : Store) (p d : ℤ) (batch : Text) (now : ℕ)
      → is_zero d ≡ false
      → Holds t.redis batch p d
      → Run kind s t
      → Run kind s
          (finish_flush (format_int p) now (insert_batch o kind p d batch now t.db) t.redis).1
  unfolding insert_batch finish_flush
  finish-Run answers t p d batch now z h r = rw z (next r (insert_step p d batch now (inl h)))
  finish-Run fails t p d batch now z h r = rw z (next r (upkeep _ refl refl refl))
  finish-Run unheard t p d batch now z h r =
      rw z (next (next r (insert_step p d batch now (inl h))) (upkeep _ refl refl refl))

  -- The end of a flush, from a store where an entry stands behind a claimed delta.
  book_claim-Run :
      (o : Outcome) (t : Store) (p : ℤ) (batch : Text) (now : ℕ) (c : Claim)
      → ((d : ℤ) → c ≡ claimed d → Holds t.redis batch p d)
      → Run kind s t
      → Run kind s (book_claim o kind (format_int p) p batch now c t.redis t.db).1
  unfolding book_claim
  book_claim-Run o t p batch now not_ready h r = r
  book_claim-Run o t p batch now empty h r = r
  book_claim-Run o t p batch now (claim_error e) h r = r
  book_claim-Run o t p batch now (claimed d) h r = elim (Bool-cases (is_zero d)) [
    | inl z ↦ unfold insert_batch finish_flush in rw z r
    | inr nz ↦ finish-Run o t p d batch now nz (h d refl) r
  ]

claim_and_book-Run :
    {kind : Kind} (co io : Outcome) (s : Store) (p : ℤ) (batch : Text) (now : ℕ) (v : Ready)
    (r : Redis)
    → lookup batch s.redis.processing_batch ≡ none
    → lookup batch s.db.counter_batch ≡ none
    → r.delta ≡ s.redis.delta
    → r.processing_batch ≡ s.redis.processing_batch
    → r.processing_sum ≡ s.redis.processing_sum
    → Run kind s (claim_and_book co io kind (format_int p) p batch now (v, r) s).1
unfolding claim_and_book
claim_and_book-Run co io s p batch now (later t) r f g d b u = next here (upkeep _ d b u)
claim_and_book-Run co io s p batch now ready r f g d b u =
    let (c, r') = claim_delta co (format_int p) now batch r in
    book_claim-Run io (record s { redis = r' }) p batch now c
      (λ e same. claim_delta-Holds co p e now batch r same)
      (claim_delta-Run co p now batch (rw b f) g (next here (upkeep r d b u)))

-- A flush of a post under a fresh batch id is a run of the ledger's steps, also where its script or
-- its statement fails or where only the answer is lost.
pub flush_post-Run :
    {kind : Kind} (co io : Outcome) (s : Store) (p : ℤ) (batch : Text) (now : ℕ)
    → lookup batch s.redis.processing_batch ≡ none
    → lookup batch s.db.counter_batch ≡ none
    → Run kind s (flush_post co io kind (format_int p) p batch now s).1
unfolding flush_post recheck_ready
flush_post-Run co io s p batch now f g =
    elim (Option-cases (lookup (format_int p) s.redis.dirty_at)) [
      | inl e ↦
          rw (e, recheck_ready) (claim_and_book-Run co io s p batch now ready _ f g refl refl refl)
      | inr (t, e) ↦
          rw (e, recheck_ready)
            (claim_and_book-Run co io s p batch now _ s.redis f g refl refl refl)
    ]

parse_batch_value-eq :
    (p d p' d' : ℤ)
    → parse_batch_value (batch_value (format_int p) d) ≡ some (p', d')
    → (p' ≡ p) × (d' ≡ d)
unfolding parse_batch_value
parse_batch_value-eq p d p' d' h = elim (Option-cases (parse_int (format_int p))) [
  | inl n ↦ absurd (ground (arith, h, cut-batch_value p d, n))
  | inr (z, e) ↦ elim (Option-cases (parse_int (format_int d))) [
    | inl n ↦ absurd (ground (arith, h, cut-batch_value p d, e, n))
    | inr (w, e') ↦ ground (
      arith,
      h,
      cut-batch_value p d,
      e,
      e',
      parse_int-eq (format_int p) p z (decimal-format_int p) e,
      parse_int-eq (format_int d) d w (decimal-format_int d) e',
    )
  ]
]

-- An entry that the recovery parses holds the post and the delta that it reads.
pub parsed-Holds :
    (kind : Kind) (s : Store) (batch raw : Text) (p d : ℤ)
    → Inv kind s
    → lookup batch s.redis.processing_batch ≡ some raw
    → parse_batch_value raw ≡ some (p, d)
    → Holds s.redis batch p d
parsed-Holds kind s batch raw p d v found h =
    let w = v.written batch raw found in
    let e = parse_batch_value-eq w.post w.delta p d (rw w.text at h) in
    record {
      raw = raw;
      found = found;
      reads = ap content w.text ∙ content-batch_value w.post w.delta ∙ cc (e.0, e.1);
    }
