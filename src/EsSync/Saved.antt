-- ===== src/EsSync/Saved.antt =====
-- What the two tables hold of the events that could not be written.
use comment_project.Common.{
  ℕ, ◌≤◌, ◌≡◌, ◌⊎◌, refl, inl, inr, Bool, true, false, not, ◌&&◌, ◌++◌, ◌==◌, none, some, List, [],
  ◌∷◌, arith, Bool-cases, Option-cases,
}
use comment_project.Common.Dict.{nat_eq, lookup, Distinct}
use comment_project.Common.Table.{lookup-add_absent, add-Distinct}
use comment_project.Common.Outcome.{Outcome, answers, fails, unheard}
use comment_project.Common.Text.{Text}
use comment_project.EsSync.Row.{Target, target_of}
use comment_project.EsSync.Index.{Event}
use comment_project.EsSync.Retry.{
  Payload, Codec, Cause, RetryRow, DlqRow, Tables, SaveCalls, executed, insert_retry, insert_dlq,
  save_poison, save_retry, retry_row, dlq_of_event, payload_of,
}

abbrev pub Any {ℓ} : {A : Type ℓ} → (A → Type 0) → List A → Type 0
Any P [] = ⊥
Any P (x ∷ xs) = P x ⊎ Any P xs

pub Any-left {ℓ} : {A : Type ℓ} (P : A → Type 0) (xs ys : List A) → Any P xs → Any P (xs ++ ys)
Any-left P [] ys h = absurd h
Any-left P (x ∷ xs) ys (inl h) = inl h
Any-left P (x ∷ xs) ys (inr h) = inr (Any-left P xs ys h)

pub Any-last {ℓ} : {A : Type ℓ} (P : A → Type 0) (xs : List A) (y : A) → P y → Any P (xs ++ y ∷ [])
Any-last P [] y h = inl h
Any-last P (x ∷ xs) y h = inr (Any-last P xs y h)

module _ (codec : Codec) where
  -- The row holds the event, and its payload is the event's JSON.
  pub record RowOf (event : Event) (row : RetryRow) : Type 0 where
    pub table : row.table_name ≡ event.table
    pub kind : row.event_type ≡ event.event_type
    pub at : row.version ≡ event.version
    pub target : target_of event.table event.row ≡ some row.target
    pub payload : Payload
    pub of_event : payload.event ≡ event
    pub written : codec.marshal payload ≡ some row.payload

  abbrev pub InRetry : Event → Tables → Type 0
  InRetry event s =
      (id : ℕ) × (row : RetryRow) × (lookup id s.es_sync_retry ≡ some row) × RowOf event row

  -- The letter holds the event, with the JSON of its row.
  pub record LetterOf (event : Event) (d : DlqRow) : Type 0 where
    pub table : d.table_name ≡ event.table
    pub kind : d.event_type ≡ event.event_type
    pub at : d.version ≡ event.version
    pub written :
        (codec.marshal_row event.row ≡ d.payload)
        ⊎ ((p : Payload) × (p.event ≡ event) × (codec.marshal p ≡ some d.payload))

  abbrev pub Saved : Event → Tables → Type 0
  Saved event s = InRetry event s ⊎ Any (LetterOf event) s.es_sync_dlq

  -- The ids from the next one on are free, no id stands twice, and each row holds an event of `Good`.
  pub record IsTables (Good : Event → Type 0) (s : Tables) : Type 0 where
    pub free : (id : ℕ) → s.next_id ≤ id → lookup id s.es_sync_retry ≡ none
    pub distinct : Distinct s.es_sync_retry
    pub rows :
        (id : ℕ) (row : RetryRow)
        → lookup id s.es_sync_retry ≡ some row
        → (event : Event) × RowOf event row × Good event

module _ (codec : Codec) (Good : Event → Type 0) where
  -- The tables keep what they hold.
  pub record Grows (s r : Tables) : Type 0 where
    pub fresh : IsTables codec Good r
    pub keeps : (event : Event) → Saved codec event s → Saved codec event r

  pub same-Grows : (s : Tables) → IsTables codec Good s → Grows s s
  same-Grows s f = record { fresh = f; keeps = λ event h. h }

  insert_retry-Grows :
      (row : RetryRow) (s : Tables)
      → IsTables codec Good s
      → (event : Event) × RowOf codec event row × Good event
      → Grows s (insert_retry row s)
  unfolding insert_retry
  insert_retry-Grows row s f held =
      let unused = f.free s.next_id (omega arith) in
      let found = λ (id : ℕ). lookup-add_absent id s.next_id row s.es_sync_retry unused in
      record {
        fresh = record {
          free = λ id h. ground (arith, found id, f.free id (omega (arith, h)));
          distinct = add-Distinct s.next_id row s.es_sync_retry f.distinct;
          rows = λ id other h. elim (Bool-cases (s.next_id == id)) [
            | inl new ↦
                let same : row ≡ other = ground (arith, found id, new, h) in rw (← same) held
            | inr old ↦ f.rows id other (ground (arith, found id, old, h))
          ];
        };
        keeps = λ event h. elim h [
          | inr d ↦ inr d
          | inl (id, r, there, is) ↦ inl (id, r, ground (arith, found id, unused, there), is)
        ];
      }

  insert_dlq-Grows : (d : DlqRow) (s : Tables) → IsTables codec Good s → Grows s (insert_dlq d s)
  unfolding insert_dlq
  insert_dlq-Grows d s f = record {
    fresh = record { free = f.free; distinct = f.distinct; rows = f.rows };
    keeps = λ event h. elim h [
      | inl r ↦ inl r
      | inr l ↦ inr (Any-left (LetterOf codec event) s.es_sync_dlq (d ∷ []) l)
    ];
  }

  -- A statement that is executed, or not, keeps what the tables hold; if it answers, it was executed.
  abbrev pub Saves : Event → Tables → Bool × Tables → Type 0
  Saves event s r = Grows s r.1 × (r.0 ≡ true → Saved codec event r.1)

  executed-Saves :
      (o : Outcome) (event : Event) (s r : Tables)
      → IsTables codec Good s
      → Grows s r
      → Saved codec event r
      → Saves event s (executed o s r)
  executed-Saves answers event s r f g h = (g, λ _. h)
  executed-Saves fails event s r f g h = (same-Grows s f, λ e. cc e)
  executed-Saves unheard event s r f g h = (g, λ e. cc e)

  unsaved-Saves : (event : Event) (s : Tables) → IsTables codec Good s → Saves event s (false, s)
  unsaved-Saves event s f = (same-Grows s f, λ e. cc e)

  saved_letter :
      (event : Event) (cause : Cause) (s : Tables)
      → Saved codec event (insert_dlq (dlq_of_event codec event cause) s)
  unfolding insert_dlq
  saved_letter event cause s = inr (
      Any-last (LetterOf codec event) s.es_sync_dlq (dlq_of_event codec event cause)
        (record { table = refl; kind = refl; at = refl; written = inl refl }))

  saved_RowOf :
      (event : Event) (t : Target) (payload now : Text) (clock : ℕ) (cause : Cause)
      → target_of event.table event.row ≡ some t
      → codec.marshal (payload_of codec event t now) ≡ some payload
      → RowOf codec event (retry_row codec event t payload clock cause)
  saved_RowOf event t payload now clock cause target written = record {
    table = refl;
    kind = refl;
    at = refl;
    target = target;
    payload = payload_of codec event t now;
    of_event = refl;
    written = written;
  }

  saved_row :
      (event : Event) (t : Target) (payload now : Text) (clock : ℕ) (cause : Cause) (s : Tables)
      → IsTables codec Good s
      → target_of event.table event.row ≡ some t
      → codec.marshal (payload_of codec event t now) ≡ some payload
      → Saved codec event (insert_retry (retry_row codec event t payload clock cause) s)
  unfolding insert_retry
  saved_row event t payload now clock cause s f target written = inl (
    s.next_id,
    retry_row codec event t payload clock cause,
    ground (
      arith,
      lookup-add_absent s.next_id s.next_id (retry_row codec event t payload clock cause)
          s.es_sync_retry (f.free s.next_id (omega arith)),
    ),
    saved_RowOf event t payload now clock cause target written,
  )

  save_poison-Saves :
      (calls : SaveCalls) (event : Event) (cause : Cause) (s : Tables)
      → IsTables codec Good s
      → Saves event s (save_poison codec calls event cause s)
  unfolding save_poison
  save_poison-Saves calls event cause s f = elim (Bool-cases calls.tables_made) [
    | inr missing ↦ rw (save_poison, missing) (unsaved-Saves event s f)
    | inl made ↦
        let letter = dlq_of_event codec event cause in
        rw (save_poison, made)
          (executed-Saves calls.insert event s (insert_dlq letter s) f (insert_dlq-Grows letter s f)
            (saved_letter event cause s))
  ]

  pub save_retry-Saves :
      (calls : SaveCalls) (event : Event) (cause : Cause) (s : Tables)
      → IsTables codec Good s
      → Good event
      → Saves event s (save_retry codec calls event cause s)
  unfolding save_retry lookup
  save_retry-Saves calls event cause s f good =
      elim (Bool-cases (not (calls.db_ready && calls.tables_made))) [
        | inl missing ↦ rw (save_retry, missing) (unsaved-Saves event s f)
        | inr ready ↦ elim (Option-cases (target_of event.table event.row)) [
          | inl untargeted ↦
              rw (save_retry, ready, untargeted) (save_poison-Saves calls event cause s f)
          | inr (t, target) ↦
              elim (Option-cases (codec.marshal (payload_of codec event t calls.now))) [
                | inl unwritten ↦
                    rw (save_retry, ready, target, unwritten) (unsaved-Saves event s f)
                | inr (payload, written) ↦
                    let row = retry_row codec event t payload calls.clock cause in
                    rw (save_retry, ready, target, written)
                      (executed-Saves calls.insert event s (insert_retry row s) f
                        (insert_retry-Grows row s f (
                          event,
                          saved_RowOf event t payload calls.now calls.clock cause target written,
                          good,
                        ))
                        (saved_row event t payload calls.now calls.clock cause s f target written))
              ]
        ]
      ]
