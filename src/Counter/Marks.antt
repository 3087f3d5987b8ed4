-- ===== src/Counter/Marks.antt =====
-- A post with a pending delta is marked as dirty, so that the scheduler finds it.
use comment_project.Common.{
  ℕ, ◌≡◌, refl, inl, inr, none, some, Option, Bool, true, false, List, [], ◌∷◌, arith, Option-cases,
  Bool-cases, not, ◌&&◌, ◌||◌,
}
use comment_project.Common.Int.{ℤ, ◌+ℤ◌}
use comment_project.Common.Dict.{
  Dict, text_eq, lookup, insert, erase, text_beq, text_beq_iff, lookup-insert, lookup-erase,
}
use comment_project.Common.Text.{Text, parse_int}
use comment_project.Counter.State.{Redis, or_zero, clear_dirty, hincrby}
use comment_project.Counter.Scripts.{enqueue_script, claim_script, take_delta, not_ready_until}
use comment_project.Counter.Flush.{Outcome, answers, fails, unheard, schedule_flush, schedule_dirty}

abbrev pub is_some {ℓ} : {A : Type ℓ} → Option A → Bool
is_some none = false
is_some (some a) = true

-- Every pending delta has its post in `dirty`, `dirty_at` and `dirty_since`.
abbrev pub IsMarked : Redis → Type 0
IsMarked r =
    (post : Text)
    → is_some (lookup post r.delta) ≡ true
    → (is_some (lookup post r.dirty) ≡ true)
      × (is_some (lookup post r.dirty_at) ≡ true)
      × (is_some (lookup post r.dirty_since) ≡ true)

-- The keys of `delta` are numbers.
abbrev pub IsNumbered : Redis → Type 0
IsNumbered r =
    (post : Text) → is_some (lookup post r.delta) ≡ true → is_some (parse_int post) ≡ true

module _ {V : Type 0} where
  is_some-insert :
      (q post : Text) (v : V) (m : Dict Text V)
      → is_some (lookup q (insert post v m)) ≡ (text_beq post q || is_some (lookup q m))
  is_some-insert q post v m = ground (arith, lookup-insert q post v m)

  is_some-erase :
      (q post : Text) (m : Dict Text V)
      → is_some (lookup q (erase post m)) ≡ (not (text_beq post q) && is_some (lookup q m))
  is_some-erase q post m = ground (arith, lookup-erase q post m)

-- An enqueue keeps every post with a pending delta in the three dirty sets.
pub enqueue-IsMarked :
    (post : Text) (d : ℤ) (now : ℕ) (r : Redis)
    → IsMarked r
    → IsMarked (enqueue_script post d now r).1
unfolding enqueue_script hincrby
enqueue-IsMarked post d now r v q h =
    let old = v q in
    let i = rw (is_some-insert q post (or_zero (lookup post r.delta) +ℤ d) r.delta) at h in
    let dirty = is_some-insert q post tt r.dirty in
    let at = is_some-insert q post now r.dirty_at in
    elim (Option-cases (lookup post r.dirty_since)) [
      | inl e ↦
          let since = is_some-insert q post now r.dirty_since in
          ground (arith, i, old, dirty, at, since, e)
      | inr (t, e) ↦ ground (arith, i, old, dirty, at, e, text_beq_iff post q)
    ]

-- Without a pending delta of the post, its marks can go.
clear_dirty-IsMarked :
    (post : Text) (r : Redis)
    → lookup post r.delta ≡ none
    → IsMarked r
    → IsMarked (clear_dirty post r)
unfolding clear_dirty
clear_dirty-IsMarked post r e v q h =
    let old = v q h in
    let dirty = is_some-erase q post r.dirty in
    let at = is_some-erase q post r.dirty_at in
    let since = is_some-erase q post r.dirty_since in
    elim (Bool-cases (text_beq post q)) [
      | inl same ↦ let eq = (text_beq_iff post q).0 same in absurd (ground (arith, h, rw eq at e))
      | inr other ↦ ground (arith, old, dirty, at, since, other)
    ]

claimed-IsMarked :
    (post : Text) (r : Redis) (b : Dict Text Text) (n : Dict Text ℤ) (ids : Dict Text (Unit {0}))
    → IsMarked r
    → IsMarked (
        clear_dirty post (record r {
          delta = erase post r.delta;
          processing_batch = b;
          processing_sum = n;
          processing_batches = ids;
        }))
unfolding clear_dirty
claimed-IsMarked post r b n ids v q h =
    let old = v q in
    let i = rw (is_some-erase q post r.delta) at h in
    let dirty = is_some-erase q post r.dirty in
    let at = is_some-erase q post r.dirty_at in
    let since = is_some-erase q post r.dirty_since in ground (arith, i, old, dirty, at, since)

take_delta-IsMarked :
    (post batch : Text) (r : Redis) → IsMarked r → IsMarked (take_delta post batch r).1
unfolding take_delta
take_delta-IsMarked post batch r v = elim (Option-cases (lookup post r.delta)) [
  | inl e ↦ rw (e, take_delta) (clear_dirty-IsMarked post r e v)
  | inr (d, e) ↦ rw (e, take_delta) (claimed-IsMarked post r _ _ _ v)
]

-- A claim keeps every post with a pending delta in the three dirty sets.
pub claim-IsMarked :
    (post : Text) (quiet longest now : ℕ) (batch : Text) (r : Redis)
    → IsMarked r
    → IsMarked (claim_script post quiet longest now batch r).1
unfolding claim_script
claim-IsMarked post quiet longest now batch r v =
    elim (Option-cases (not_ready_until post quiet longest now r)) [
      | inl e ↦ rw (e, claim_script) (take_delta-IsMarked post batch r v)
      | inr (t, e) ↦ rw (e, claim_script) v
    ]

-- a post without `dirty_at` has no pending delta
unmarked :
    (post : Text) (r : Redis)
    → IsMarked r
    → lookup post r.dirty_at ≡ none
    → lookup post r.delta ≡ none
unmarked post r v e = elim (Option-cases (lookup post r.delta)) [
  | inl none_there ↦ none_there
  | inr (d, f) ↦ absurd (ground (arith, (v post (rw f refl)).1, e))
]

unnumbered :
    (post : Text) (r : Redis) → IsNumbered r → parse_int post ≡ none → lookup post r.delta ≡ none
unnumbered post r n e = elim (Option-cases (lookup post r.delta)) [
  | inl none_there ↦ none_there
  | inr (d, f) ↦ absurd (ground (arith, n post (rw f refl), e))
]

schedule_flush-delta :
    (o since : Outcome) (post : Text) (r : Redis)
    → (schedule_flush o since post r).1.delta ≡ r.delta
unfolding schedule_flush
schedule_flush-delta answers answers post r = ground arith
schedule_flush-delta answers fails post r = ground arith
schedule_flush-delta answers unheard post r = ground arith
schedule_flush-delta fails since post r = refl
schedule_flush-delta unheard since post r = refl

-- `dirty_since` filled in where it is missing
refilled-IsMarked :
    (post : Text) (t : ℕ) (r : Redis)
    → IsMarked r
    → IsMarked (record r { dirty_since = insert post t r.dirty_since })
refilled-IsMarked post t r v q h = ground (arith, v q h, is_some-insert q post t r.dirty_since)

scheduled-IsMarked :
    (since : Outcome) (post : Text) (t : ℕ) (r : Redis)
    → lookup post r.dirty_at ≡ some t
    → IsMarked r
    → IsMarked (schedule_flush answers since post r).1
unfolding schedule_flush
scheduled-IsMarked answers post t r e v = elim (Option-cases (lookup post r.dirty_since)) [
  | inl f ↦ rw (e, schedule_flush) (rw f (refilled-IsMarked post t r v))
  | inr (u, f) ↦ rw (e, schedule_flush) (rw f v)
]
scheduled-IsMarked fails post t r e v = elim (Option-cases (lookup post r.dirty_since)) [
  | inl f ↦ rw (e, schedule_flush) (rw f v)
  | inr (u, f) ↦ rw (e, schedule_flush) (rw f v)
]
scheduled-IsMarked unheard post t r e v = elim (Option-cases (lookup post r.dirty_since)) [
  | inl f ↦ rw (e, schedule_flush) (rw f v)
  | inr (u, f) ↦ rw (e, schedule_flush) (rw f v)
]

schedule_flush-IsMarked :
    (o since : Outcome) (post : Text) (r : Redis)
    → IsMarked r
    → IsMarked (schedule_flush o since post r).1
unfolding schedule_flush clear_dirty
schedule_flush-IsMarked fails since post r v = v
schedule_flush-IsMarked unheard since post r v = v
schedule_flush-IsMarked answers since post r v = elim (Option-cases (lookup post r.dirty_at)) [
  | inl e ↦
      rw (e, schedule_flush)
        (λ q h.
          let old = v q h in
          let gone = clear_dirty-IsMarked post r (unmarked post r v e) v q h in
          (gone.0, old.1, gone.2))
  | inr (t, e) ↦ scheduled-IsMarked since post t r e v
]

-- Where the keys of `delta` are numbers, a pass of the scheduler over drawn ids keeps every post
-- with a pending delta in the three dirty sets, also where it drops the marks of an id that is not
-- a number or that has no dirty time.
pub schedule_dirty-IsMarked :
    (posts : List Text) (r : Redis) → IsNumbered r → IsMarked r → IsMarked (schedule_dirty posts r)
unfolding schedule_dirty
schedule_dirty-IsMarked [] r n v = v
schedule_dirty-IsMarked (post ∷ posts) r n v = elim (Option-cases (parse_int post)) [
  | inl e ↦
      rw (e, schedule_dirty)
        (schedule_dirty-IsMarked posts (clear_dirty post r) (unfold clear_dirty in n)
          (clear_dirty-IsMarked post r (unnumbered post r n e) v))
  | inr (i, e) ↦
      rw (e, schedule_dirty)
        (schedule_dirty-IsMarked posts (schedule_flush answers answers post r).1
          (rw (schedule_flush-delta answers answers post r) n)
          (schedule_flush-IsMarked answers answers post r v))
]
