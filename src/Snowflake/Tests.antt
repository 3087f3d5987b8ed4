-- ===== src/Snowflake/Tests.antt =====
-- Ids at concrete times.
use comment_project.Common.{ℕ, ◌+◌, ◌≡◌, ◌≢◌, refl, arith, some, none, List, [], ◌∷◌, ◌++◌, suc}
use comment_project.Snowflake.{Node, epoch, id_of, generate, generate_all, stamp}
use comment_project.Snowflake.Order.{
  IsValid, IsIncreasing, last_id, at_start_of, generate_all-IsIncreasing, generate-some,
  generate-clock_back,
}

abbrev start : Node
start = record { timestamp = epoch + 5; worker_id = 1; sequence = 0 }

start-IsValid : IsValid start
start-IsValid = record {
  worker = omega arith;
  sequence = omega arith;
  since = omega arith;
  until = omega arith;
}

abbrev clock : List ℕ
clock = (epoch + 5) ∷ (epoch + 6) ∷ []

abbrev two_ids : List ℕ
two_ids = id_of (epoch + 5) 1 1 ∷ id_of (epoch + 6) 1 0 ∷ []

two_ids_given :
    generate_all 2 start clock
    ≡ some (two_ids, record { timestamp = epoch + 6; worker_id = 1; sequence = 0 }, [])
unfolding generate_all generate stamp
two_ids_given = refl

generate_all-IsIncreasing_example : IsIncreasing (last_id start) two_ids
generate_all-IsIncreasing_example =
    generate_all-IsIncreasing 2 start clock two_ids
      (record { timestamp = epoch + 6; worker_id = 1; sequence = 0 }) [] start-IsValid
      (omega arith, omega arith, (omega arith, omega arith, tt)) two_ids_given

generate-some_example : generate start ((epoch + 5) ∷ ((epoch + 5) ∷ []) ++ (epoch + 6) ∷ []) ≢ none
generate-some_example =
    generate-some start (epoch + 5) ((epoch + 5) ∷ []) (epoch + 6) [] (omega arith)

generate-clock_back_example :
    generate_all 2 (at_start_of (suc (epoch + 5)) 1) ((epoch + 5) ∷ suc (epoch + 5) ∷ [])
    ≡ some (
      id_of (epoch + 5) 1 0 ∷ last_id (at_start_of (suc (epoch + 5)) 1) ∷ [],
      at_start_of (suc (epoch + 5)) 1,
      [],
    )
generate-clock_back_example = generate-clock_back (epoch + 5) 1
