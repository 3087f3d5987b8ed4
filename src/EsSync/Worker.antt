-- ===== src/EsSync/Worker.antt =====
-- A pass of the retry worker loses no event: the tables and the index after each attempt.
use comment_project.Common.{ℕ, ◌+◌, ◌*◌, ◌≡◌, ◌∙◌, sym, subst, inl, inr, some, Bool-cases, leb}
use comment_project.Common.Dict.{nat_eq, lookup, erase-found}
use comment_project.Common.Outcome.{Outcome, answers, fails, unheard}
use comment_project.EsSync.Index.{Event, RowError}
use comment_project.EsSync.Retry.{
  Codec, Cause, of_row, RetryRow, Tables, executed, insert_dlq, update_retry, delete_retry,
  retry_backoff_base, retry_max_attempts,
}
use comment_project.EsSync.Saved.{IsTables, Saved}
use comment_project.EsSync.Binlog.{Binlog}
use comment_project.EsSync.Canal.{IsCanal, IsCodec}
use comment_project.EsSync.Passes.{RetryCalls, dlq_row, move_to_dlq, after_failure, due}
use comment_project.EsSync.Retried.{
  Same, RowOf-Same, delete-IsTables, letter-IsTables, update-IsTables, update-Saved, delete-Saved,
  letter-Saved, new_letter, update-lookup,
}

Same-sym : (a b : RetryRow) → Same a b → Same b a
Same-sym a b s = record {
  table = sym s.table;
  kind = sym s.kind;
  target = sym s.target;
  at = sym s.at;
  payload = sym s.payload;
}

Same-trans : (a b c : RetryRow) → Same a b → Same b c → Same a c
Same-trans a b c s t = record {
  table = s.table ∙ t.table;
  kind = s.kind ∙ t.kind;
  target = s.target ∙ t.target;
  at = s.at ∙ t.at;
  payload = s.payload ∙ t.payload;
}

pub executed-either :
    (P : Tables → Type 0) (o : Outcome) (s r : Tables) → P s → P r → P (executed o s r).1
executed-either P answers s r before after = after
executed-either P fails s r before after = before
executed-either P unheard s r before after = after

-- The row that was selected holds the event of the row that is there now, if one is.
abbrev pub Snap : ℕ → RetryRow → Tables → Type 0
Snap id row s = (now : RetryRow) → lookup id s.es_sync_retry ≡ some now → Same now row

module _ (files : Binlog) (codec : Codec) (reads : IsCodec codec) where
  -- The tables keep every event and every selected row.
  pub record Retains (s r : Tables) : Type 0 where
    pub tables : IsTables codec (IsCanal files) r
    pub saved : (event : Event) → Saved codec event s → Saved codec event r
    pub snap : (id : ℕ) (row : RetryRow) → Snap id row s → Snap id row r

  pub same-Retains : (s : Tables) → IsTables codec (IsCanal files) s → Retains s s
  same-Retains s t = record { tables = t; saved = λ event h. h; snap = λ id row h. h }

  pub delete-Snap :
      (j : ℕ) (s : Tables) (id : ℕ) (row : RetryRow)
      → Snap id row s
      → Snap id row (delete_retry j s)
  unfolding delete_retry
  delete-Snap j s id row h now there = h now (erase-found id j s.es_sync_retry there)

  update-Retains :
      (id count due : ℕ) (cause : Cause) (s : Tables)
      → IsTables codec (IsCanal files) s
      → Retains s (update_retry id count due cause s)
  unfolding update_retry
  update-Retains id count due cause s t = record {
    tables = update-IsTables files codec reads id count due cause s t;
    saved = update-Saved files codec reads id count due cause s;
    snap = λ j row h now there.
        elim (update-lookup files codec reads id count due cause j s.es_sync_retry) [
          | inl (_, absent) ↦ absurd (cc (absent, there))
          | inr (a, b, was, is, same) ↦
              let is_now : b ≡ now = cc (is, there) in
              Same-trans now a row (Same-sym a now (subst (Same a) is_now same)) (h a was)
        ];
  }

  move-Retains :
      (id : ℕ) (row : RetryRow) (cause : Cause) (s : Tables)
      → IsTables codec (IsCanal files) s
      → Snap id row s
      → Retains s (delete_retry id (insert_dlq (dlq_row row cause) s))
  unfolding insert_dlq
  move-Retains id row cause s t snap =
      let lettered = insert_dlq (dlq_row row cause) s in
      record {
        tables =
            delete-IsTables files codec reads id lettered
              (letter-IsTables files codec reads (dlq_row row cause) s t);
        saved = λ event h.
            elim (delete-Saved files codec reads id lettered event
              (letter-Saved files codec reads (dlq_row row cause) s event h)) [
                | inl kept ↦ kept
                | inr (now, there, of) ↦
                    new_letter files codec reads row cause id s event
                      (RowOf-Same files codec reads event now row (snap now there) of)
              ];
        snap = λ j r h. delete-Snap id lettered j r h;
      }

  pub after_failure-Retains :
      (calls : RetryCalls) (id : ℕ) (row : RetryRow) (error : RowError) (s : Tables)
      → IsTables codec (IsCanal files) s
      → Snap id row s
      → Retains s (after_failure calls id row error s).1
  unfolding after_failure move_to_dlq
  after_failure-Retains calls id row error s t snap =
      elim (Bool-cases (leb retry_max_attempts (row.retry_count + 1))) [
        | inl last ↦ rw last (
            executed-either (Retains s) calls.statement s
              (delete_retry id (insert_dlq (dlq_row row (of_row error)) s)) (same-Retains s t)
              (move-Retains id row (of_row error) s t snap))
        | inr more ↦ rw more (
            executed-either (Retains s) calls.statement s
              (update_retry id (row.retry_count + 1)
                (calls.clock + retry_backoff_base * (row.retry_count + 2)) (of_row error) s)
              (same-Retains s t)
              (update-Retains id (row.retry_count + 1)
                (calls.clock + retry_backoff_base * (row.retry_count + 2)) (of_row error) s t))
      ]
