-- ===== src/PostCache/Coherent.antt =====
-- A load through the cache gives what the database holds, and keeps the cache true.
use comment_project.Common.{
  ◌≡◌, ◌⊎◌, subst, refl, inl, inr, Bool, true, false, Option, none, some, arith, Bool-cases,
}
use comment_project.Common.Int.{ℤ, int_eq, int_beq, int_beq_iff}
use comment_project.Common.Dict.{lookup, insert, erase, lookup-insert, erase-found}
use comment_project.Common.Outcome.{Outcome, answers, fails, unheard}
use comment_project.PostCache.{
  Post, Stats, CacheValue, null_value, undecodable, value, Cache, Read, miss, read_error, null_hit,
  hit, Loaded, db_error, LoadCalls, after_write, core_entry, stats_entry, read_core, read_stats,
  core_of, stats_of,
}

module _ (query_post : ℤ → Option Post) (query_stats : ℤ → Option Stats) where
  -- The two queries read one database.
  pub record IsDatabase : Type 0 where
    pub own_id : (id : ℤ) (p : Post) → query_post id ≡ some p → p.post_id ≡ id
    pub same_counts :
        (id : ℤ) (p : Post) → query_post id ≡ some p → query_stats id ≡ some (stats_of p)

  abbrev pub CoreOf : ℤ → CacheValue Post → Type 0
  CoreOf id null_value = query_post id ≡ none
  CoreOf id undecodable = Unit
  CoreOf id (value core) = (p : Post) × (query_post id ≡ some p) × (core ≡ core_of p)

  abbrev pub StatsOf : ℤ → CacheValue Stats → Type 0
  StatsOf id (value s) = (p : Post) → query_post id ≡ some p → s ≡ stats_of p
  StatsOf id null_value = Unit
  StatsOf id undecodable = Unit

  -- What the cache holds of a post is what the database holds.
  pub record IsTrue (c : Cache) : Type 0 where
    pub core : (id : ℤ) (x : CacheValue Post) → lookup id c.core ≡ some x → CoreOf id x
    pub stats : (id : ℤ) (x : CacheValue Stats) → lookup id c.stats ≡ some x → StatsOf id x

  pub after_write-IsTrue :
      (o : Outcome) (c d : Cache) → IsTrue c → IsTrue d → IsTrue (after_write o c d)
  after_write-IsTrue answers c d v w = w
  after_write-IsTrue fails c d v w = v
  after_write-IsTrue unheard c d v w = w

  erase_core-IsTrue : (id : ℤ) (c : Cache) → IsTrue c → IsTrue (record c { core = erase id c.core })
  erase_core-IsTrue id c v = record {
    core = λ j x h. v.core j x (erase-found j id c.core h);
    stats = v.stats;
  }

  erase_stats-IsTrue :
      (id : ℤ) (c : Cache) → IsTrue c → IsTrue (record c { stats = erase id c.stats })
  erase_stats-IsTrue id c v = record {
    core = v.core;
    stats = λ j x h. v.stats j x (erase-found j id c.stats h);
  }

  pub insert_core-IsTrue :
      (id : ℤ) (x : CacheValue Post) (c : Cache)
      → CoreOf id x
      → IsTrue c
      → IsTrue (record c { core = insert id x c.core })
  insert_core-IsTrue id x c of v = record {
    core = λ j y h. elim (Bool-cases (int_beq id j)) [
      | inl same ↦
          let is : x ≡ y = ground (arith, lookup-insert j id x c.core, same, h) in
          subst (λ k. CoreOf k y) ((int_beq_iff id j).0 same) (subst (CoreOf id) is of)
      | inr other ↦ v.core j y (ground (arith, lookup-insert j id x c.core, other, h))
    ];
    stats = v.stats;
  }

  pub insert_stats-IsTrue :
      (id : ℤ) (x : CacheValue Stats) (c : Cache)
      → StatsOf id x
      → IsTrue c
      → IsTrue (record c { stats = insert id x c.stats })
  insert_stats-IsTrue id x c of v = record {
    core = v.core;
    stats = λ j y h. elim (Bool-cases (int_beq id j)) [
      | inl same ↦
          let is : x ≡ y = ground (arith, lookup-insert j id x c.stats, same, h) in
          subst (λ k. StatsOf k y) ((int_beq_iff id j).0 same) (subst (StatsOf id) is of)
      | inr other ↦ v.stats j y (ground (arith, lookup-insert j id x c.stats, other, h))
    ];
  }

  -- What a read that hits has found.
  abbrev pub CoreHit : ℤ → Read Post → Type 0
  CoreHit id (hit core) = CoreOf id (value core)
  CoreHit id null_hit = query_post id ≡ none
  CoreHit id miss = Unit
  CoreHit id read_error = Unit

  abbrev pub StatsHit : ℤ → Read Stats → Type 0
  StatsHit id (hit s) = StatsOf id (value s)
  StatsHit id null_hit = Unit
  StatsHit id miss = Unit
  StatsHit id read_error = Unit

  core_entry-CoreHit :
      (id : ℤ) (o : Option (CacheValue Post))
      → ((x : CacheValue Post) → o ≡ some x → CoreOf id x)
      → CoreHit id (core_entry o).0
  core_entry-CoreHit id none h = tt
  core_entry-CoreHit id (some null_value) h = h null_value refl
  core_entry-CoreHit id (some undecodable) h = tt
  core_entry-CoreHit id (some (value p)) h = h (value p) refl

  stats_entry-StatsHit :
      (id : ℤ) (o : Option (CacheValue Stats))
      → ((x : CacheValue Stats) → o ≡ some x → StatsOf id x)
      → StatsHit id (stats_entry o).0
  stats_entry-StatsHit id none h = tt
  stats_entry-StatsHit id (some null_value) h = tt
  stats_entry-StatsHit id (some undecodable) h = tt
  stats_entry-StatsHit id (some (value s)) h = h (value s) refl

  pub read_core-IsTrue :
      (bypass : Bool) (o del : Outcome) (id : ℤ) (c : Cache)
      → IsTrue c
      → CoreHit id (read_core bypass o del id c).0 × IsTrue (read_core bypass o del id c).1
  unfolding read_core
  read_core-IsTrue true o del id c v = (tt, v)
  read_core-IsTrue false fails del id c v = (tt, v)
  read_core-IsTrue false unheard del id c v = (tt, v)
  read_core-IsTrue false answers del id c v = (
    core_entry-CoreHit id (lookup id c.core) (v.core id),
    elim (Bool-cases (core_entry (lookup id c.core)).1) [
      | inl gone ↦ rw gone (
          after_write-IsTrue del c (record c { core = erase id c.core }) v
            (erase_core-IsTrue id c v))
      | inr kept ↦ rw kept v
    ],
  )

  pub read_stats-IsTrue :
      (bypass : Bool) (o del : Outcome) (id : ℤ) (c : Cache)
      → IsTrue c
      → StatsHit id (read_stats bypass o del id c).0 × IsTrue (read_stats bypass o del id c).1
  unfolding read_stats
  read_stats-IsTrue true o del id c v = (tt, v)
  read_stats-IsTrue false fails del id c v = (tt, v)
  read_stats-IsTrue false unheard del id c v = (tt, v)
  read_stats-IsTrue false answers del id c v = (
    stats_entry-StatsHit id (lookup id c.stats) (v.stats id),
    elim (Bool-cases (stats_entry (lookup id c.stats)).1) [
      | inl gone ↦ rw gone (
          after_write-IsTrue del c (record c { stats = erase id c.stats }) v
            (erase_stats-IsTrue id c v))
      | inr kept ↦ rw kept v
    ],
  )

  -- The cache is true; the answer is `e`, or an error that a query gives.
  abbrev pub Right : LoadCalls → Loaded → Loaded × Cache → Type 0
  Right calls e r =
      IsTrue r.1
      × ((r.0 ≡ e)
          ⊎ ((r.0 ≡ db_error) × ((calls.post_answers ≡ false) ⊎ (calls.stats_answers ≡ false))))

  pub exact-Right :
      (calls : LoadCalls) (e : Loaded) (r : Loaded × Cache) → IsTrue r.1 → r.0 ≡ e → Right calls e r
  exact-Right calls e r v h = (v, inl h)
