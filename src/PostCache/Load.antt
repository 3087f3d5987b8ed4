-- ===== src/PostCache/Load.antt =====
-- `loadPostWithSplitCache`: what a load answers, and that the cache stays true.
use comment_project.Common.{
  ◌≡◌, refl, sym, ap, subst, inl, inr, Bool, true, false, Option, none, some, Bool-cases,
  if◌then◌else◌,
}
use comment_project.Common.Int.{ℤ}
use comment_project.PostCache.{
  Stats, complete_stats, first_core, Post, null_value, value, Cache, Read, miss, read_error,
  null_hit, hit, Loaded, loaded, not_found, db_error, LoadCalls, read_core, core_of, stats_of,
  write_split, write_null, fetch_post, query_missing_post, second_core, load_post,
}
use comment_project.PostCache.Coherent.{
  IsDatabase, IsTrue, CoreHit, Right, exact-Right, after_write-IsTrue, insert_core-IsTrue,
  insert_stats-IsTrue, read_core-IsTrue,
}
use comment_project.PostCache.Counts.{complete_stats-Right}

-- The answer of a load that meets no error.
abbrev pub answer : Option Post → Loaded
answer none = not_found
answer (some p) = loaded p

module _ (query_post : ℤ → Option Post) (query_stats : ℤ → Option Stats)
    (d : IsDatabase query_post query_stats) (calls : LoadCalls) where
  write_null-IsTrue :
      (id : ℤ) (c : Cache)
      → query_post id ≡ none
      → IsTrue query_post query_stats c
      → IsTrue query_post query_stats (write_null calls.bypass calls.write id c)
  unfolding write_null
  write_null-IsTrue id c gone v = elim (Bool-cases calls.bypass) [
    | inl by ↦ rw by v
    | inr through ↦ rw through (
        after_write-IsTrue query_post query_stats calls.write c _ v
          (insert_core-IsTrue query_post query_stats id null_value c gone v))
  ]

  write_split-IsTrue :
      (p : Post) (c : Cache)
      → query_post p.post_id ≡ some p
      → IsTrue query_post query_stats c
      → IsTrue query_post query_stats (write_split calls.bypass calls.write p c)
  unfolding write_split
  write_split-IsTrue p c found v = elim (Bool-cases calls.bypass) [
    | inl by ↦ rw by v
    | inr through ↦
        let w =
          insert_core-IsTrue query_post query_stats p.post_id (value (core_of p)) c (p, found, refl)
            v in
        rw through (
          after_write-IsTrue query_post query_stats calls.write c _ v (
            insert_stats-IsTrue query_post query_stats p.post_id (value (stats_of p)) _
              (λ q h. let same : p ≡ q = cc (found, h) in ap stats_of same) w))
  ]

  fetch_post-Right :
      (b : Bool) (id : ℤ) (o : Option Post) (c : Cache)
      → calls.post_answers ≡ b
      → query_post id ≡ o
      → IsTrue query_post query_stats c
      → Right query_post query_stats calls
          (answer o)
          (if b then fetch_post query_post query_stats calls id o c else (db_error, c))
  fetch_post-Right false id o c silent found v = (v, inr (refl, inl silent))
  fetch_post-Right true id none c answered gone v =
      exact-Right query_post query_stats calls not_found _ (write_null-IsTrue id c gone v) refl
  fetch_post-Right true id (some p) c answered found v =
      let here : query_post p.post_id ≡ some p =
        subst (λ k. query_post k ≡ some p) (sym (d.own_id id p found)) found in
      exact-Right query_post query_stats calls (loaded p) _ (write_split-IsTrue p c here v) refl

  query_missing_post-Right :
      (id : ℤ) (c : Cache)
      → IsTrue query_post query_stats c
      → Right query_post query_stats calls
          (answer (query_post id))
          (query_missing_post query_post query_stats calls id c)
  unfolding query_missing_post
  query_missing_post-Right id c v =
      fetch_post-Right calls.post_answers id (query_post id) c refl refl v

  hit-Right :
      (id : ℤ) (core : Post) (c : Cache)
      → CoreHit query_post query_stats id (hit core)
      → IsTrue query_post query_stats c
      → Right query_post query_stats calls
          (answer (query_post id))
          (complete_stats query_post query_stats calls core c)
  hit-Right id core c h v =
      let (p, found, right) = complete_stats-Right query_post query_stats d calls id core c h v in
      subst
        (λ o.
          Right query_post query_stats calls (answer o)
            (complete_stats query_post query_stats calls core c))
        (sym found) right

  absent-Right :
      (id : ℤ) (c : Cache)
      → query_post id ≡ none
      → IsTrue query_post query_stats c
      → Right query_post query_stats calls (answer (query_post id)) (not_found, c)
  absent-Right id c gone v =
      subst (λ o. Right query_post query_stats calls (answer o) (not_found, c)) (sym gone)
        (exact-Right query_post query_stats calls not_found (not_found, c) v refl)

  second_core-Right :
      (id : ℤ) (r : Read Post × Cache)
      → CoreHit query_post query_stats id r.0
      → IsTrue query_post query_stats r.1
      → Right query_post query_stats calls
          (answer (query_post id))
          (second_core query_post query_stats calls id r)
  second_core-Right id (hit core, c) h v = hit-Right id core c h v
  second_core-Right id (null_hit, c) h v = absent-Right id c h v
  second_core-Right id (miss, c) h v = query_missing_post-Right id c v
  second_core-Right id (read_error, c) h v = query_missing_post-Right id c v

  again_core-Right :
      (id : ℤ) (c : Cache)
      → IsTrue query_post query_stats c
      → Right query_post query_stats calls (answer (query_post id)) (
          second_core query_post query_stats calls id
            (read_core calls.bypass calls.core_again calls.delete id c))
  again_core-Right id c v =
      let (h, w) =
        read_core-IsTrue query_post query_stats calls.bypass calls.core_again calls.delete id c v in
      second_core-Right id (read_core calls.bypass calls.core_again calls.delete id c) h w

  first_core-Right :
      (id : ℤ) (r : Read Post × Cache)
      → CoreHit query_post query_stats id r.0
      → IsTrue query_post query_stats r.1
      → Right query_post query_stats calls
          (answer (query_post id))
          (first_core query_post query_stats calls id r)
  first_core-Right id (hit core, c) h v = hit-Right id core c h v
  first_core-Right id (null_hit, c) h v = absent-Right id c h v
  first_core-Right id (miss, c) h v = again_core-Right id c v
  first_core-Right id (read_error, c) h v = again_core-Right id c v

  -- Where the two queries read one database and the cache holds of every post only what the database
  -- holds, a load through the cache leaves such a cache, however the calls of the cache end; its answer
  -- is that of the database, or a database error if one of the two queries does not answer.
  pub load_post-Right :
      (id : ℤ) (c : Cache)
      → IsTrue query_post query_stats c
      → Right query_post query_stats calls
          (answer (query_post id))
          (load_post query_post query_stats calls id c)
  unfolding load_post
  load_post-Right id c v =
      let (h, w) =
        read_core-IsTrue query_post query_stats calls.bypass calls.core_read calls.delete id c v in
      first_core-Right id (read_core calls.bypass calls.core_read calls.delete id c) h w
