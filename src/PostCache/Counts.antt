-- ===== src/PostCache/Counts.antt =====
-- `completePostStats`: the counts that a load adds to a body are those of the database.
use comment_project.Common.{
  ◌≡◌, sym, subst, refl, ap, inl, inr, Bool, true, false, Option, some, Bool-cases, if◌then◌else◌,
}
use comment_project.Common.Int.{ℤ, int_eq}
use comment_project.PostCache.{
  Post, Stats, value, Cache, Read, miss, read_error, null_hit, hit, loaded, db_error, LoadCalls,
  read_stats, merge, core_of, stats_of, write_stats, fetch_stats, query_missing_stats, second_stats,
  first_stats, complete_stats,
}
use comment_project.PostCache.Coherent.{
  IsDatabase, IsTrue, CoreOf, StatsHit, Right, exact-Right, after_write-IsTrue, insert_stats-IsTrue,
  read_stats-IsTrue,
}

module _ (query_post : ℤ → Option Post) (query_stats : ℤ → Option Stats) where
  merged : (p : Post) (s : Stats) → s ≡ stats_of p → loaded (merge (core_of p) s) ≡ loaded p
  merged p s h = ap (λ t. loaded (merge (core_of p) t)) h

  module _ (d : IsDatabase query_post query_stats) (calls : LoadCalls) where
    write_stats-IsTrue :
        (p : Post) (c : Cache)
        → query_post p.post_id ≡ some p
        → IsTrue query_post query_stats c
        → IsTrue query_post query_stats
            (write_stats calls.bypass calls.write p.post_id (stats_of p) c)
    unfolding write_stats
    write_stats-IsTrue p c found v = elim (Bool-cases calls.bypass) [
      | inl by ↦ rw by v
      | inr through ↦ rw through (
          after_write-IsTrue query_post query_stats calls.write c _ v (
            insert_stats-IsTrue query_post query_stats p.post_id (value (stats_of p)) c
              (λ q h. let same : p ≡ q = cc (found, h) in ap stats_of same) v))
    ]

    fetch_stats-Right :
        (b : Bool) (p : Post) (c : Cache)
        → calls.stats_answers ≡ b
        → query_post p.post_id ≡ some p
        → IsTrue query_post query_stats c
        → Right query_post query_stats calls (loaded p) (
            if b
            then fetch_stats query_post query_stats calls (core_of p) (query_stats p.post_id) c
            else (db_error, c))
    fetch_stats-Right false p c silent found v = (v, inr (refl, inr silent))
    fetch_stats-Right true p c answered found v = rw (d.same_counts p.post_id p found) (
        exact-Right query_post query_stats calls (loaded p) _ (write_stats-IsTrue p c found v) refl)

    query_missing_stats-Right :
        (p : Post) (c : Cache)
        → query_post p.post_id ≡ some p
        → IsTrue query_post query_stats c
        → Right query_post query_stats calls
            (loaded p)
            (query_missing_stats query_post query_stats calls (core_of p) c)
    unfolding query_missing_stats
    query_missing_stats-Right p c found v = fetch_stats-Right calls.stats_answers p c refl found v

    second_stats-Right :
        (p : Post) (r : Read Stats × Cache)
        → query_post p.post_id ≡ some p
        → StatsHit query_post query_stats p.post_id r.0
        → IsTrue query_post query_stats r.1
        → Right query_post query_stats calls
            (loaded p)
            (second_stats query_post query_stats calls (core_of p) r)
    second_stats-Right p (hit s, c) found h v =
        exact-Right query_post query_stats calls (loaded p) (loaded (merge (core_of p) s), c) v
          (merged p s (h p found))
    second_stats-Right p (miss, c) found h v = query_missing_stats-Right p c found v
    second_stats-Right p (read_error, c) found h v = query_missing_stats-Right p c found v
    second_stats-Right p (null_hit, c) found h v = query_missing_stats-Right p c found v

    again-Right :
        (p : Post) (c : Cache)
        → query_post p.post_id ≡ some p
        → IsTrue query_post query_stats c
        → Right query_post query_stats calls (loaded p) (
            second_stats query_post query_stats calls
              (core_of p)
              (read_stats calls.bypass calls.stats_again calls.delete p.post_id c))
    again-Right p c found v =
        let (h, w) =
          read_stats-IsTrue query_post query_stats calls.bypass calls.stats_again calls.delete
            p.post_id c v in
        second_stats-Right p (read_stats calls.bypass calls.stats_again calls.delete p.post_id c)
          found h w

    first_stats-Right :
        (p : Post) (r : Read Stats × Cache)
        → query_post p.post_id ≡ some p
        → StatsHit query_post query_stats p.post_id r.0
        → IsTrue query_post query_stats r.1
        → Right query_post query_stats calls
            (loaded p)
            (first_stats query_post query_stats calls (core_of p) r)
    first_stats-Right p (hit s, c) found h v =
        exact-Right query_post query_stats calls (loaded p) (loaded (merge (core_of p) s), c) v
          (merged p s (h p found))
    first_stats-Right p (miss, c) found h v = again-Right p c found v
    first_stats-Right p (read_error, c) found h v = again-Right p c found v
    first_stats-Right p (null_hit, c) found h v = again-Right p c found v

    pub complete_stats-Right :
        (id : ℤ) (core : Post) (c : Cache)
        → CoreOf query_post query_stats id (value core)
        → IsTrue query_post query_stats c
        → (p : Post) × (query_post id ≡ some p)
          × Right query_post query_stats calls
              (loaded p)
              (complete_stats query_post query_stats calls core c)
    unfolding complete_stats
    complete_stats-Right id core c (p, found, is) v =
        let here : query_post p.post_id ≡ some p =
          subst (λ k. query_post k ≡ some p) (sym (d.own_id id p found)) found in
        let (h, w) =
          read_stats-IsTrue query_post query_stats calls.bypass calls.stats_read calls.delete
            p.post_id c v in
        (
          p,
          found,
          rw is (
              first_stats-Right p
                (read_stats calls.bypass calls.stats_read calls.delete p.post_id c) here h w),
        )
