-- ===== src/PostCache/Tests.antt =====
-- A post that an operator took down, read through the cache by a student and by an operator.
use comment_project.Common.{
  ◌≡◌, ◌∙◌, sym, if◌then◌else◌, refl, ap, inl, inr, Bool-cases, arith, true, false, Option, none,
  some, [],
}
use comment_project.Common.Int.{ℤ, pos, int_eq, int_beq, int_beq_iff}
use comment_project.Common.Dict.{lookup, insert, erase}
use comment_project.Common.Outcome.{answers, fails}
use comment_project.Common.Text.{codes}
use comment_project.PostCache.{
  Post, Stats, value, Cache, loaded, not_found, LoadCalls, core_of, stats_of, read_core, read_stats,
  write_stats, write_null, query_missing_stats, complete_stats, query_missing_post, load_post,
}
use comment_project.PostCache.Coherent.{IsDatabase, IsTrue, Right, insert_core-IsTrue}
use comment_project.PostCache.Load.{answer, load_post-Right}

abbrev calm : LoadCalls
calm = record {
  bypass = false;
  core_read = answers;
  core_again = answers;
  stats_read = fails;
  stats_again = answers;
  delete = answers;
  write = answers;
  post_answers = true;
  stats_answers = true;
}

abbrev notice : Post
notice = record {
  id = pos 1;
  post_id = pos 7;
  author_id = pos 5;
  title = codes "exam";
  content = codes "room 3";
  status = pos 2;
  like_count = pos 3;
  comment_count = pos 2;
  created_at = 10;
  updated_at = 12;
  deleted_at = none;
}

abbrev empty : Cache
empty = record { core = []; stats = [] }

-- the body of the post without its counts
abbrev half : Cache
half = record empty { core = insert (pos 7) (value (core_of notice)) [] }

abbrev all_posts : ℤ → Option Post
all_posts id = if int_beq (pos 7) id then some notice else none

abbrev all_counts : ℤ → Option Stats
all_counts id = if int_beq (pos 7) id then some (stats_of notice) else none

-- a student's query of a post that is taken down
abbrev published_posts : ℤ → Option Post
published_posts id = none

own_id : (id : ℤ) (p : Post) → all_posts id ≡ some p → p.post_id ≡ id
own_id id p h = elim (Bool-cases (int_beq (pos 7) id)) [
  | inl same ↦
      let is : notice ≡ p = ground (arith, h, same) in
      ap (λ q. q.post_id) (sym is) ∙ (int_beq_iff (pos 7) id).0 same
  | inr other ↦ ground (arith, h, other)
]

same_counts : (id : ℤ) (p : Post) → all_posts id ≡ some p → all_counts id ≡ some (stats_of p)
same_counts id p h = elim (Bool-cases (int_beq (pos 7) id)) [
  | inl same ↦
      let is : notice ≡ p = ground (arith, h, same) in rw same (ap (λ q. some (stats_of q)) is)
  | inr other ↦ ground (arith, h, other)
]

all-IsDatabase : IsDatabase all_posts all_counts
all-IsDatabase = record { own_id = own_id; same_counts = same_counts }

empty-IsTrue : IsTrue all_posts all_counts empty
unfolding lookup
empty-IsTrue = record { core = λ id x h. cc h; stats = λ id x h. cc h }

half-IsTrue : IsTrue all_posts all_counts half
unfolding int_beq
half-IsTrue =
    insert_core-IsTrue all_posts all_counts (pos 7) (value (core_of notice)) empty
      (notice, refl, refl) empty-IsTrue

load_post-Right_example :
    Right all_posts all_counts calm
      (answer (all_posts (pos 7)))
      (load_post all_posts all_counts calm (pos 7) half)
load_post-Right_example =
    load_post-Right all_posts all_counts all-IsDatabase calm (pos 7) half half-IsTrue

counts_fetched : (load_post all_posts all_counts calm (pos 7) half).0 ≡ loaded notice
unfolding load_post complete_stats query_missing_stats read_core read_stats write_stats lookup
    insert erase int_beq
counts_fetched = refl

abbrev after_student : Cache
after_student = (load_post published_posts all_counts calm (pos 7) empty).1

-- After a student's load of the post, an operator's load does not find it.
hidden_from_operator : (load_post all_posts all_counts calm (pos 7) after_student).0 ≡ not_found
unfolding load_post query_missing_post read_core write_null lookup insert erase int_beq
hidden_from_operator = refl
