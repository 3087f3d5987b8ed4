-- ===== src/PostCache.antt =====
-- comment-service/internal/data/post_split_cache.go: a post is cached in two parts, its body and its
-- counts. A value of the cache is what encoding/json makes of it.
pub mod Coherent
pub mod Counts
pub mod Load
pub mod Tests
use comment_project.Common.{ℕ, Bool, true, false, Option, none, some, List, [], ◌∷◌, if◌then◌else◌}
use comment_project.Common.Int.{ℤ, pos, int_eq}
use comment_project.Common.Dict.{Dict, lookup, insert, erase}
use comment_project.Common.Outcome.{Outcome, answers, fails, unheard}
use comment_project.Common.Text.{Text}

-- A post; its times are nanoseconds, and `deleted_at` is absent while the post stands.
pub record Post : Type 0 where
  pub id : ℤ
  pub post_id : ℤ
  pub author_id : ℤ
  pub title : Text
  pub content : Text
  pub status : ℤ
  pub like_count : ℤ
  pub comment_count : ℤ
  pub created_at : ℕ
  pub updated_at : ℕ
  pub deleted_at : Option ℕ

-- `postStatsCache`
pub record Stats : Type 0 where
  pub likes : ℤ
  pub comments : ℤ

-- The value of a key: the null value, or bytes that are decoded or not.
pub data CacheValue (A : Type 0) : Type 0 where
  null_value undecodable : CacheValue A
  value : A → CacheValue A

pub record Cache : Type 0 where
  pub core : Dict ℤ (CacheValue Post)
  pub stats : Dict ℤ (CacheValue Stats)

-- What a read of the cache gives: nothing, an error, the null value or a value.
pub data Read (A : Type 0) : Type 0 where
  miss read_error null_hit : Read A
  hit : A → Read A

pub data Loaded : Type 0 where
  loaded : Post → Loaded
  not_found db_error : Loaded

-- How the calls of a load end: the reads, the deletions of what is not decoded, the write, and whether
-- each of the two queries answers.
pub record LoadCalls : Type 0 where
  pub bypass : Bool
  pub core_read : Outcome
  pub core_again : Outcome
  pub stats_read : Outcome
  pub stats_again : Outcome
  pub delete : Outcome
  pub write : Outcome
  pub post_answers : Bool
  pub stats_answers : Bool

-- What a write or a deletion leaves.
abbrev pub after_write : Outcome → Cache → Cache → Cache
after_write answers before after = after
after_write fails before after = before
after_write unheard before after = after

-- a value that is found, and whether its key is deleted
abbrev pub core_entry : Option (CacheValue Post) → Read Post × Bool
core_entry none = (miss, false)
core_entry (some null_value) = (null_hit, false)
core_entry (some undecodable) = (read_error, true)
core_entry (some (value p)) = (hit p, false)

abbrev pub stats_entry : Option (CacheValue Stats) → Read Stats × Bool
stats_entry none = (miss, false)
stats_entry (some null_value) = (read_error, true)
stats_entry (some undecodable) = (read_error, true)
stats_entry (some (value s)) = (hit s, false)

-- a read that is passed by, or that may fail
abbrev pub read_with : {A : Type 0} → Bool → Outcome → Read A × Bool → Read A × Bool
read_with true o r = (miss, false)
read_with false answers r = r
read_with false fails r = (read_error, false)
read_with false unheard r = (read_error, false)

-- `readPostCoreCache`
unfoldable pub read_core : Bool → Outcome → Outcome → ℤ → Cache → Read Post × Cache
read_core bypass o del id c =
    let r = read_with bypass o (core_entry (lookup id c.core)) in
    (r.0, if r.1 then after_write del c (record c { core = erase id c.core }) else c)

-- `readPostStatsCache`
unfoldable pub read_stats : Bool → Outcome → Outcome → ℤ → Cache → Read Stats × Cache
read_stats bypass o del id c =
    let r = read_with bypass o (stats_entry (lookup id c.stats)) in
    (r.0, if r.1 then after_write del c (record c { stats = erase id c.stats }) else c)

-- `mergePostStats`
abbrev pub merge : Post → Stats → Post
merge p s = record p { like_count = s.likes; comment_count = s.comments }

abbrev pub core_of : Post → Post
core_of p = record p { like_count = pos 0; comment_count = pos 0 }

abbrev pub stats_of : Post → Stats
stats_of p = record { likes = p.like_count; comments = p.comment_count }

-- `writePostSplitCache`
unfoldable pub write_split : Bool → Outcome → Post → Cache → Cache
write_split bypass o p c =
    if bypass
    then c
    else after_write o c (record {
      core = insert p.post_id (value (core_of p)) c.core;
      stats = insert p.post_id (value (stats_of p)) c.stats;
    })

-- `writePostStatsCache`
unfoldable pub write_stats : Bool → Outcome → ℤ → Stats → Cache → Cache
write_stats bypass o id s c =
    if bypass then c else after_write o c (record c { stats = insert id (value s) c.stats })

-- `writePostNullCache`
unfoldable pub write_null : Bool → Outcome → ℤ → Cache → Cache
write_null bypass o id c =
    if bypass then c else after_write o c (record c { core = insert id null_value c.core })

module _ (query_post : ℤ → Option Post) (query_stats : ℤ → Option Stats) where
  -- the query of the counts, after both reads missed
  abbrev pub fetch_stats : LoadCalls → Post → Option Stats → Cache → Loaded × Cache
  fetch_stats calls core none c = (not_found, c)
  fetch_stats calls core (some s) c =
      (loaded (merge core s), write_stats calls.bypass calls.write core.post_id s c)

  unfoldable pub query_missing_stats : LoadCalls → Post → Cache → Loaded × Cache
  unfolding write_stats
  query_missing_stats calls core c =
      if calls.stats_answers
      then fetch_stats calls core (query_stats core.post_id) c
      else (db_error, c)

  abbrev pub second_stats : LoadCalls → Post → Read Stats × Cache → Loaded × Cache
  second_stats calls core (hit s, c) = (loaded (merge core s), c)
  second_stats calls core (r, c) = query_missing_stats calls core c

  abbrev pub first_stats : LoadCalls → Post → Read Stats × Cache → Loaded × Cache
  first_stats calls core (hit s, c) = (loaded (merge core s), c)
  first_stats calls core (r, c) =
      second_stats calls core
        (read_stats calls.bypass calls.stats_again calls.delete core.post_id c)

  -- `completePostStats`, whose group lets one caller at a time query
  unfoldable pub complete_stats : LoadCalls → Post → Cache → Loaded × Cache
  unfolding read_stats query_missing_stats
  complete_stats calls core c =
      first_stats calls core (read_stats calls.bypass calls.stats_read calls.delete core.post_id c)

  abbrev pub fetch_post : LoadCalls → ℤ → Option Post → Cache → Loaded × Cache
  fetch_post calls id none c = (not_found, write_null calls.bypass calls.write id c)
  fetch_post calls id (some p) c = (loaded p, write_split calls.bypass calls.write p c)

  unfoldable pub query_missing_post : LoadCalls → ℤ → Cache → Loaded × Cache
  unfolding write_null write_split
  query_missing_post calls id c =
      if calls.post_answers then fetch_post calls id (query_post id) c else (db_error, c)

  abbrev pub second_core : LoadCalls → ℤ → Read Post × Cache → Loaded × Cache
  second_core calls id (hit core, c) = complete_stats calls core c
  second_core calls id (null_hit, c) = (not_found, c)
  second_core calls id (r, c) = query_missing_post calls id c

  abbrev pub first_core : LoadCalls → ℤ → Read Post × Cache → Loaded × Cache
  first_core calls id (hit core, c) = complete_stats calls core c
  first_core calls id (null_hit, c) = (not_found, c)
  first_core calls id (r, c) =
      second_core calls id (read_core calls.bypass calls.core_again calls.delete id c)

  -- `loadPostWithSplitCache`
  unfoldable pub load_post : LoadCalls → ℤ → Cache → Loaded × Cache
  unfolding read_core complete_stats query_missing_post
  load_post calls id c =
      first_core calls id (read_core calls.bypass calls.core_read calls.delete id c)
