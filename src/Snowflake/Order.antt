-- ===== src/Snowflake/Order.antt =====
-- The ids of a node grow as long as its clock does not go back, and can repeat when it does.
use comment_project.Common.{
  ◌++◌, ℕ, zero, suc, ◌+◌, ◌-◌, ◌*◌, ◌%◌, ◌^◌, ◌≤◌, ◌<◌, ◌≡◌, ◌≢◌, ◌⊎◌, refl, inl, inr, false,
  Option, none, some, List, [], ◌∷◌, arith, Option-cases, Bool-cases, leb, ◌==◌,
}
use comment_project.Snowflake.{
  epoch, max_sequence, Node, id_of, wait, stamp, generate, generate_all,
}

-- A node whose parts are in their ranges, and whose last time has an id.
pub record IsValid (n : Node) : Type 0 where
  pub worker : n.worker_id < 1024
  pub sequence : n.sequence ≤ max_sequence
  pub since : epoch ≤ n.timestamp
  pub until : n.timestamp < epoch + 2 ^ 41

abbrev pub last_id : Node → ℕ
last_id n = id_of n.timestamp n.worker_id n.sequence

-- Within the 41 bits of the time, the id is the sum of its parts.
id_of-parts :
    (t w s : ℕ)
    → epoch ≤ t
    → t < epoch + 2 ^ 41
    → w < 1024
    → s ≤ max_sequence
    → id_of t w s ≡ (t - epoch) * 2 ^ 22 + w * 2 ^ 12 + s
unfolding id_of
id_of-parts t w s a b c d = omega arith

id_of_mono :
    (t u w s r : ℕ)
    → epoch ≤ t
    → u < epoch + 2 ^ 41
    → w < 1024
    → s ≤ max_sequence
    → r ≤ max_sequence
    → ((t < u) ⊎ ((t ≡ u) × (s < r)))
    → id_of t w s < id_of u w r
id_of_mono t u w s r a b c d e h = ground (arith, id_of-parts t w s, id_of-parts u w r, h)

-- The clock does not go back from `t` on, and stays in the 41 bits.
abbrev pub IsForward : ℕ → List ℕ → Type 0
IsForward t [] = Unit
IsForward t (u ∷ clock) = (t ≤ u) × (u < epoch + 2 ^ 41) × IsForward u clock

wait-later :
    (last now : ℕ) (clock : List ℕ) (t : ℕ) (rest : List ℕ)
    → IsForward last (now ∷ clock)
    → wait last now clock ≡ some (t, rest)
    → (last < t) × (t < epoch + 2 ^ 41) × IsForward t rest
unfolding wait
wait-later last now [] t rest f h = ground (arith, f.0, f.1, h)
wait-later last now (next ∷ clock) t rest f h = elim (Bool-cases (leb now last)) [
  | inl early ↦
      wait-later last next clock t rest (ground (arith, early, f.0, f.2.0), f.2.1, f.2.2)
        (rw early at h)
  | inr late ↦
      let same : (now ≡ t) × ((next ∷ clock) ≡ rest) = ground (arith, rw late at h) in
      rw (← same.0, ← same.1) (ground (arith, late), f.1, f.2)
]

-- What a call leaves: a valid node whose last id is the one that was given, greater than the last id
-- before, and a clock that does not go back from its time.
pub record IsNext (n : Node) (r : ℕ × Node × List ℕ) : Type 0 where
  pub valid : IsValid r.1
  pub given : r.0 ≡ last_id r.1
  pub grows : last_id n < r.0
  pub forward : IsForward r.1.timestamp r.2

stamp-IsNext :
    (n : Node) (sequence t : ℕ) (rest : List ℕ)
    → IsValid n
    → sequence ≤ max_sequence
    → t < epoch + 2 ^ 41
    → ((n.timestamp < t) ⊎ ((n.timestamp ≡ t) × (n.sequence < sequence)))
    → IsForward t rest
    → IsNext n (id_of t n.worker_id sequence, record n { timestamp = t; sequence = sequence }, rest)
stamp-IsNext n sequence t rest v s b later f = record {
  valid = record {
    worker = v.worker;
    sequence = s;
    since = ground (arith, v.since, later);
    until = b;
  };
  given = refl;
  grows =
      id_of_mono n.timestamp t n.worker_id n.sequence sequence v.since b v.worker v.sequence s
        later;
  forward = f;
}

waited-IsNext :
    (n : Node) (now : ℕ) (clock : List ℕ) (r : ℕ × Node × List ℕ)
    → IsValid n
    → IsForward n.timestamp (now ∷ clock)
    → stamp n 0 (wait n.timestamp now clock) ≡ some r
    → IsNext n r
unfolding stamp
waited-IsNext n now clock r v f h = elim (Option-cases (wait n.timestamp now clock)) [
  | inl e ↦ absurd (cc (rw e at h))
  | inr ((t, rest), e) ↦
      let (later, bound, forward) = wait-later n.timestamp now clock t rest f e in
      let same : (id_of t n.worker_id 0, record n { timestamp = t; sequence = 0 }, rest) ≡ r =
        ground (arith, rw e at h) in
      rw (← same) (stamp-IsNext n 0 t rest v (omega arith) bound (inl later) forward)
]

-- An id that is generated while the clock does not go back is greater than the last one, and leaves a
-- node of the same kind.
pub generate-IsNext :
    (n : Node) (clock : List ℕ) (r : ℕ × Node × List ℕ)
    → IsValid n
    → IsForward n.timestamp clock
    → generate n clock ≡ some r
    → IsNext n r
unfolding generate stamp
generate-IsNext n [] r v f h = absurd (cc h)
generate-IsNext n (now ∷ clock) r v f h = elim (Bool-cases (now == n.timestamp)) [
  | inr other ↦
      let same : (id_of now n.worker_id 0, record n { timestamp = now; sequence = 0 }, clock) ≡ r =
        ground (arith, rw other at h) in
      rw (← same)
        (stamp-IsNext n 0 now clock v (omega arith) f.1 (inl (ground (arith, f.0, other))) f.2)
  | inl same_time ↦ elim (Bool-cases ((n.sequence + 1) % (max_sequence + 1) == 0)) [
    | inl full ↦
        let zero_next : (n.sequence + 1) % (max_sequence + 1) ≡ 0 = ground (arith, full) in
        waited-IsNext n now clock r v f (rw (same_time, zero_next) at h)
    | inr free ↦
        let sequence = (n.sequence + 1) % (max_sequence + 1) in
        let same : (
          id_of now n.worker_id sequence,
          record n { timestamp = now; sequence = sequence },
          clock,
        )
            ≡ r =
          ground (arith, rw (same_time, free) at h) in
        rw (← same) (
          stamp-IsNext n sequence now clock v (omega arith) f.1
            (inr (ground (arith, same_time), ground (arith, free, v.sequence))) f.2)
  ]
]

abbrev pub IsIncreasing : ℕ → List ℕ → Type 0
IsIncreasing x [] = Unit
IsIncreasing x (id ∷ ids) = (x < id) × IsIncreasing id ids

-- The ids that any number of calls give are strictly increasing, and greater than the last id of a
-- valid node before, as long as the clock does not go back and stays within its 41 bits.
pub generate_all-IsIncreasing :
    (k : ℕ) (n : Node) (clock : List ℕ) (ids : List ℕ) (n' : Node) (rest : List ℕ)
    → IsValid n
    → IsForward n.timestamp clock
    → generate_all k n clock ≡ some (ids, n', rest)
    → IsIncreasing (last_id n) ids
unfolding generate_all
generate_all-IsIncreasing zero n clock ids n' rest v f h =
    let e : [] ≡ ids = ground (arith, h) in rw (← e) tt
generate_all-IsIncreasing (suc k) n clock ids n' rest v f h =
    elim (Option-cases (generate n clock)) [
      | inl e ↦ absurd (cc (rw (e, generate_all) at h))
      | inr ((id, m, c), e) ↦
          let one = generate-IsNext n clock (id, m, c) v f e in
          elim (Option-cases (generate_all k m c)) [
            | inl g ↦ absurd (cc (rw g at (rw (e, generate_all) at h)))
            | inr ((more, m', c'), g) ↦
                let same : (id ∷ more) ≡ ids =
                  ground (arith, rw g at (rw (e, generate_all) at h)) in
                rw (← same) (
                  one.grows,
                  rw one.given (generate_all-IsIncreasing k m c more m' c' one.valid one.forward g),
                )
          ]
    ]

wait-some :
    (last now : ℕ) (early : List ℕ) (late : ℕ) (rest : List ℕ)
    → last < late
    → wait last now (early ++ late ∷ rest) ≢ none
unfolding wait
wait-some last now [] late [] h = ground (arith, h)
wait-some last now [] late (x ∷ rest) h = ground (arith, h)
wait-some last now (next ∷ early) late rest h =
    ground (arith, wait-some last next early late rest h)

stamp-some :
    (n : Node) (sequence : ℕ) (w : Option (ℕ × List ℕ)) → w ≢ none → stamp n sequence w ≢ none
unfolding stamp
stamp-some n sequence none h = absurd (h refl)
stamp-some n sequence (some (t, rest)) h = λ e. cc e

-- A call gives an id once the clock has read a time after the last one, however often it had to wait.
pub generate-some :
    (n : Node) (now : ℕ) (early : List ℕ) (late : ℕ) (rest : List ℕ)
    → n.timestamp < late
    → generate n (now ∷ early ++ late ∷ rest) ≢ none
unfolding generate
generate-some n now early late rest h =
    let full =
      stamp-some n ((n.sequence + 1) % (max_sequence + 1))
        (wait n.timestamp now (early ++ late ∷ rest))
        (wait-some n.timestamp now early late rest h) in
    let direct =
      λ (sequence : ℕ). stamp-some n sequence (some (now, early ++ late ∷ rest)) (λ e. cc e) in
    elim (Bool-cases (now == n.timestamp)) [
      | inr other ↦ rw other (direct 0)
      | inl same ↦ elim (Bool-cases ((n.sequence + 1) % (max_sequence + 1) == 0)) [
        | inl z ↦ rw (same, z) full
        | inr nz ↦ rw (same, nz) (direct _)
      ]
    ]

abbrev pub at_start_of : ℕ → ℕ → Node
at_start_of t w = record { timestamp = t; worker_id = w; sequence = 0 }

new_millisecond :
    (n : Node) (now : ℕ) (clock : List ℕ)
    → (now == n.timestamp) ≡ false
    → generate n (now ∷ clock)
      ≡ some (id_of now n.worker_id 0, record n { timestamp = now; sequence = 0 }, clock)
unfolding generate stamp
new_millisecond n now clock other = rw other refl

-- When the clock goes back by a millisecond and comes again, the id that was given first in its
-- millisecond is given a second time.
pub generate-clock_back :
    (t w : ℕ)
    → generate_all 2 (at_start_of (suc t) w) (t ∷ suc t ∷ [])
      ≡ some (id_of t w 0 ∷ last_id (at_start_of (suc t) w) ∷ [], at_start_of (suc t) w, [])
unfolding generate_all
generate-clock_back t w =
    rw (new_millisecond (at_start_of (suc t) w) t (suc t ∷ []) (ground arith), generate_all)
      (rw (new_millisecond (at_start_of t w) (suc t) [] (ground arith), generate_all) refl)
