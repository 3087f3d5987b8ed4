-- ===== src/EsSync/Retried.antt =====
-- A pass of the retry worker loses no event.
use comment_project.Common.{
  ℕ, ◌≡◌, ◌⊎◌, ◌∙◌, sym, subst, refl, ap, inl, inr, false, ◌==◌, ==_iff, none, some, [], ◌∷◌, arith,
  Bool-cases, Option-cases,
}
use comment_project.Common.Int.{is_zero}
use comment_project.Common.Dict.{
  Dict, nat_eq, lookup, lookup-erase, erase-Distinct, erase-found, lookup-erase_ne,
}
use comment_project.Common.Table.{
  adjust, lookup-adjust_ne, lookup-adjust_self, adjust_absent, adjust-Distinct,
}
use comment_project.EsSync.Index.{Event}
use comment_project.EsSync.Retry.{
  Payload, Codec, Cause, RetryRow, DlqRow, Tables, insert_dlq, update_retry, delete_retry,
  with_count,
}
use comment_project.EsSync.Saved.{RowOf, LetterOf, IsTables, Saved, Any-left, Any-last}
use comment_project.EsSync.Binlog.{Binlog}
use comment_project.EsSync.Canal.{IsCanal, IsCodec}
use comment_project.EsSync.Passes.{dlq_row, retry_version, retry_event}

-- Two rows that hold the same event.
pub record Same (a b : RetryRow) : Type 0 where
  pub table : a.table_name ≡ b.table_name
  pub kind : a.event_type ≡ b.event_type
  pub target : a.target ≡ b.target
  pub at : a.version ≡ b.version
  pub payload : a.payload ≡ b.payload

module _ (files : Binlog) (codec : Codec) (reads : IsCodec codec) where
  pub RowOf-Same :
      (event : Event) (a b : RetryRow) → Same a b → RowOf codec event a → RowOf codec event b
  RowOf-Same event a b s r = record {
    table = sym s.table ∙ r.table;
    kind = sym s.kind ∙ r.kind;
    at = sym s.at ∙ r.at;
    target = r.target ∙ ap some s.target;
    payload = r.payload;
    of_event = r.of_event;
    written = r.written ∙ ap some s.payload;
  }

  pub reread_row :
      (event : Event) (row : RetryRow) (r : RowOf codec event row)
      → IsCanal files event
      → codec.unmarshal row.payload ≡ some r.payload
  reread_row event row r c = reads.reread r.payload row.payload (rw r.of_event c.textual) r.written

  retry_version-event :
      (event : Event) (row : RetryRow) (p : Payload)
      → RowOf codec event row
      → IsCanal files event
      → retry_version row p ≡ event.version
  retry_version-event event row p r c =
      let position = (c.positioned row.target r.target).1 in
      let started : is_zero event.version.position ≡ false =
        rw position.binlog.position (ground (arith, position.started)) in
      rw r.at (rw (position.not_empty, started) refl)

  pub retry_event-event :
      (event : Event) (row : RetryRow) (r : RowOf codec event row)
      → IsCanal files event
      → retry_event row r.payload ≡ event
  retry_event-event event row r c = ground (
    arith,
    r.table,
    r.kind,
    ap (λ (v : Event). v.row) r.of_event,
    retry_version-event event row r.payload r c,
  )

  -- A row holds one event.
  pub event_unique :
      (a b : Event) (row : RetryRow)
      → RowOf codec a row
      → RowOf codec b row
      → IsCanal files a
      → IsCanal files b
      → a ≡ b
  event_unique a b row r s c d =
      cc (reread_row a row r c, reread_row b row s d, r.of_event, s.of_event)

  pub delete-IsTables :
      (id : ℕ) (s : Tables)
      → IsTables codec (IsCanal files) s
      → IsTables codec (IsCanal files) (delete_retry id s)
  unfolding delete_retry
  delete-IsTables id s t = record {
    free = λ j h. ground (arith, lookup-erase j id s.es_sync_retry, t.free j h);
    distinct = erase-Distinct id s.es_sync_retry t.distinct;
    rows = λ j row h. t.rows j row (erase-found j id s.es_sync_retry h);
  }

  pub letter-IsTables :
      (d : DlqRow) (s : Tables)
      → IsTables codec (IsCanal files) s
      → IsTables codec (IsCanal files) (insert_dlq d s)
  unfolding insert_dlq
  letter-IsTables d s t = record { free = t.free; distinct = t.distinct; rows = t.rows }

  pub Same-refl : (row : RetryRow) → Same row row
  Same-refl row = record { table = refl; kind = refl; target = refl; at = refl; payload = refl }

  pub update-lookup :
      (id count due : ℕ) (cause : Cause) (j : ℕ) (m : Dict ℕ RetryRow)
      → ((lookup j m ≡ none) × (lookup j (adjust id (with_count count due cause) m) ≡ none))
        ⊎ ((a : RetryRow) × (b : RetryRow) × (lookup j m ≡ some a)
            × (lookup j (adjust id (with_count count due cause) m) ≡ some b)
            × Same a b)
  update-lookup id count due cause j m =
      let f = with_count count due cause in
      elim (Option-cases (lookup j m)) [
        | inl absent ↦ inl (
          absent,
          elim (Bool-cases (id == j)) [
            | inl same ↦
                let here = (==_iff id j).0 same in
                ap (lookup j) (adjust_absent id f m (rw here absent)) ∙ absent
            | inr other ↦ lookup-adjust_ne j id f m (λ h. cc ((==_iff id j).1 h, other)) ∙ absent
          ],
        )
        | inr (a, there) ↦ elim (Bool-cases (id == j)) [
          | inl same ↦
              let here = (==_iff id j).0 same in
              inr (
                a,
                f a,
                there,
                rw here (lookup-adjust_self j f a m there),
                record { table = refl; kind = refl; target = refl; at = refl; payload = refl },
              )
          | inr other ↦ inr (
            a,
            a,
            there,
            lookup-adjust_ne j id f m (λ h. cc ((==_iff id j).1 h, other)) ∙ there,
            Same-refl a,
          )
        ]
      ]

  pub update-IsTables :
      (id count due : ℕ) (cause : Cause) (s : Tables)
      → IsTables codec (IsCanal files) s
      → IsTables codec (IsCanal files) (update_retry id count due cause s)
  unfolding update_retry
  update-IsTables id count due cause s t = record {
    free = λ j h. elim (update-lookup id count due cause j s.es_sync_retry) [
      | inl (_, absent) ↦ absent
      | inr (a, b, there, _, _) ↦ absurd (cc (t.free j h, there))
    ];
    distinct = adjust-Distinct id (with_count count due cause) s.es_sync_retry t.distinct;
    rows = λ j row h. elim (update-lookup id count due cause j s.es_sync_retry) [
      | inl (_, absent) ↦ absurd (cc (absent, h))
      | inr (a, b, there, now, same) ↦
          let (event, of, canal) = t.rows j a there in
          let is : b ≡ row = cc (now, h) in
          (event, subst (RowOf codec event) is (RowOf-Same event a b same of), canal)
    ];
  }

  -- An update keeps each event.
  pub update-Saved :
      (id count due : ℕ) (cause : Cause) (s : Tables) (event : Event)
      → Saved codec event s
      → Saved codec event (update_retry id count due cause s)
  unfolding update_retry
  update-Saved id count due cause s event (inr letter) = inr letter
  update-Saved id count due cause s event (inl (j, row, there, is)) =
      elim (update-lookup id count due cause j s.es_sync_retry) [
        | inl (absent, _) ↦ absurd (cc (absent, there))
        | inr (a, b, was, now, same) ↦
            let of : row ≡ a = cc (was, there) in
            inl (j, b, now, RowOf-Same event a b same (subst (RowOf codec event) of is))
      ]

  -- A deletion keeps each event but that of its row.
  pub delete-Saved :
      (id : ℕ) (s : Tables) (event : Event)
      → Saved codec event s
      → Saved codec event (delete_retry id s)
        ⊎ ((row : RetryRow) × (lookup id s.es_sync_retry ≡ some row) × RowOf codec event row)
  unfolding delete_retry
  delete-Saved id s event (inr letter) = inl (inr letter)
  delete-Saved id s event (inl (j, row, there, is)) = elim (Bool-cases (id == j)) [
    | inl same ↦ inr (row, rw ((==_iff id j).0 same) there, is)
    | inr other ↦ inl (
        inl (
          j,
          row,
          lookup-erase_ne j id s.es_sync_retry (λ h. cc ((==_iff id j).1 h, other)) ∙ there,
          is,
        ))
  ]

  pub letter-Saved :
      (d : DlqRow) (s : Tables) (event : Event)
      → Saved codec event s
      → Saved codec event (insert_dlq d s)
  unfolding insert_dlq
  letter-Saved d s event (inl row) = inl row
  letter-Saved d s event (inr letter) =
      inr (Any-left (LetterOf codec event) s.es_sync_dlq (d ∷ []) letter)

  pub new_letter :
      (row : RetryRow) (cause : Cause) (id : ℕ) (s : Tables) (event : Event)
      → RowOf codec event row
      → Saved codec event (delete_retry id (insert_dlq (dlq_row row cause) s))
  unfolding insert_dlq delete_retry
  new_letter row cause id s event r = inr (
      Any-last (LetterOf codec event) s.es_sync_dlq (dlq_row row cause) (record {
        table = r.table;
        kind = r.kind;
        at = r.at;
        written = inr (r.payload, r.of_event, r.written);
      }))
