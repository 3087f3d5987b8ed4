-- ===== src/Snowflake.antt =====
-- comment-service/pkg/snowflake/snowflake.go: the ids of a process. The clock is the list of what
-- its calls of `time.Now().UnixMilli()` read; the mutex makes a call of `Generate` one step.
pub mod Order
pub mod Tests
use comment_project.Common.{
  ℕ, suc, ◌+◌, ◌-◌, ◌*◌, ◌%◌, ◌^◌, Option, none, some, List, [], ◌∷◌, leb, ltb, ◌==◌, if◌then◌else◌,
}

abbrev pub epoch : ℕ
epoch = 1775664000000

abbrev pub max_sequence : ℕ
max_sequence = 4095

pub record Node : Type 0 where
  pub timestamp : ℕ
  pub worker_id : ℕ
  pub sequence : ℕ

-- The process's node.
abbrev pub node : Node
node = record { timestamp = 0; worker_id = 1; sequence = 0 }

-- The id of a time, a worker and a sequence number, as the 64 bits of the int64. The three parts have
-- no bit in common where the worker and the sequence number are in their ranges, so that their
-- disjunction is their sum.
unfoldable pub id_of : ℕ → ℕ → ℕ → ℕ
id_of now worker_id sequence =
    ((now + 2 ^ 64 - epoch) * 2 ^ 22 + worker_id * 2 ^ 12 + sequence) % 2 ^ 64

-- The loop that waits for the next millisecond; none is a clock that has given no later time yet.
unfoldable pub wait : ℕ → ℕ → List ℕ → Option (ℕ × List ℕ)
wait last now [] = if leb now last then none else some (now, [])
wait last now (next ∷ clock) =
    let later = wait last next clock in if leb now last then later else some (now, next ∷ clock)

-- The end of `Generate`: the id, the node and the rest of the clock.
unfoldable pub stamp : Node → ℕ → Option (ℕ × List ℕ) → Option (ℕ × Node × List ℕ)
unfolding id_of
stamp n sequence none = none
stamp n sequence (some (now, clock)) =
    some (id_of now n.worker_id sequence, record n { timestamp = now; sequence = sequence }, clock)

-- `Generate`
unfoldable pub generate : Node → List ℕ → Option (ℕ × Node × List ℕ)
unfolding wait stamp
generate n [] = none
generate n (now ∷ clock) =
    if now == n.timestamp
    then (let sequence = (n.sequence + 1) % (max_sequence + 1) in
        if sequence == 0
        then stamp n sequence (wait n.timestamp now clock)
        else stamp n sequence (some (now, clock)))
    else stamp n 0 (some (now, clock))

-- `n` calls of `Generate`, one after the other: the ids and the node after them.
unfoldable pub generate_all : ℕ → Node → List ℕ → Option (List ℕ × Node × List ℕ)
unfolding generate
generate_all ℕ.zero n clock = some ([], n, clock)
generate_all (suc k) n clock = elim (generate n clock) [
  | none ↦ none
  | some (id, n', clock') ↦ elim (generate_all k n' clock') [
    | none ↦ none
    | some (ids, n'', clock'') ↦ some (id ∷ ids, n'', clock'')
  ]
]
