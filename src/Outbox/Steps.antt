-- ===== src/Outbox/Steps.antt =====
-- Any interleaving of the statements and the messages of several publishers.
use comment_project.Common.{
  ℕ, ◌≤◌, ◌≡◌, ◌⊎◌, ◌∙◌, subst, refl, ap, inl, inr, ◌==◌, ==_iff, ◌++◌, none, some, List, [], ◌∷◌,
  arith, Bool-cases, Option-cases,
}
use comment_project.Common.Int.{ℤ}
use comment_project.Common.Dict.{Dict, nat_eq, lookup, Distinct}
use comment_project.Common.Table.{
  adjust, lookup-add_absent, lookup-adjust_ne, lookup-adjust_self, adjust_absent, add-Distinct,
  adjust-Distinct,
}
use comment_project.Common.Text.{Text}
use comment_project.Counter.Flush.{DirtyMessage}
use comment_project.Outbox.{
  sent, OutboxRow, Outbox, new_outbox_row, insert_outbox, update_row, as_processing, as_pending,
  as_sent, message_of,
}

abbrev pub InTopic : DirtyMessage → List DirtyMessage → Type 0
InTopic m [] = ⊥
InTopic m (n ∷ ns) = (n ≡ m) ⊎ InTopic m ns

pub InTopic-left :
    (m : DirtyMessage) (ns ms : List DirtyMessage) → InTopic m ns → InTopic m (ns ++ ms)
InTopic-left m [] ms h = absurd h
InTopic-left m (n ∷ ns) ms (inl h) = inl h
InTopic-left m (n ∷ ns) ms (inr h) = inr (InTopic-left m ns ms h)

pub InTopic-last : (m : DirtyMessage) (ns : List DirtyMessage) → InTopic m (ns ++ m ∷ [])
InTopic-last m [] = inl refl
InTopic-last m (n ∷ ns) = inr (InTopic-last m ns)

abbrev pub notice_of : OutboxRow → DirtyMessage
notice_of row = message_of row.event_type row.post_id

abbrev pub append : DirtyMessage → Outbox → Outbox
append m s = record s { topic = s.topic ++ m ∷ [] }

-- A new row; a claim, or the mark of an error; the message of a row; the mark of a row as sent, by a
-- publisher whose message is written.
pub data Step : Outbox → Outbox → Type 0 where
  record_row :
      (s : Outbox) (event_type : Text) (post : ℤ) (now : ℕ)
      → Step s (insert_outbox event_type post now s)
  claim : (s : Outbox) (id now : ℕ) → Step s (update_row id (as_processing now) s)
  put_back :
      (s : Outbox) (id now : ℕ) (message : Text) → Step s (update_row id (as_pending now message) s)
  tell :
      (s : Outbox) (id : ℕ) (row : OutboxRow)
      → lookup id s.rows ≡ some row
      → Step s (append (notice_of row) s)
  settle :
      (s : Outbox) (id now : ℕ) (row : OutboxRow)
      → lookup id s.rows ≡ some row
      → InTopic (notice_of row) s.topic
      → Step s (update_row id (as_sent now) s)

pub data Run (s : Outbox) : Outbox → Type 0 where
  here : Run s s
  next : {t u : Outbox} → Run s t → Step t u → Run s u

pub Run-trans : (s t u : Outbox) → Run s t → Run t u → Run s u
Run-trans s t u a here = a
Run-trans s t u a (next b st) = next (Run-trans s t _ a b) st

-- Ids are new and distinct, and a row is sent only if its message is in the topic.
pub record IsHonest (s : Outbox) : Type 0 where
  pub free : (id : ℕ) → s.next_id ≤ id → lookup id s.rows ≡ none
  pub distinct : Distinct s.rows
  pub told :
      (id : ℕ) (row : OutboxRow)
      → lookup id s.rows ≡ some row
      → row.status ≡ sent
      → InTopic (notice_of row) s.topic

-- Rows and messages stay: a row with its event and its post.
pub record Keeps (s r : Outbox) : Type 0 where
  pub rows :
      (id : ℕ) (row : OutboxRow)
      → lookup id s.rows ≡ some row
      → (now : OutboxRow) × (lookup id r.rows ≡ some now) × (notice_of now ≡ notice_of row)
  pub messages : (m : DirtyMessage) → InTopic m s.topic → InTopic m r.topic

pub Keeps-refl : (s : Outbox) → Keeps s s
Keeps-refl s = record { rows = λ id row h. (row, h, refl); messages = λ m h. h }

pub Keeps-trans : (s r q : Outbox) → Keeps s r → Keeps r q → Keeps s q
Keeps-trans s r q a b = record {
  rows = λ id row h.
      let (now, there, same) = a.rows id row h in
      let (last, found, equal) = b.rows id now there in (last, found, equal ∙ same);
  messages = λ m h. b.messages m (a.messages m h);
}

-- What an update finds at an id, and leaves there.
adjust-lookup :
    (id : ℕ) (f : OutboxRow → OutboxRow) (j : ℕ) (m : Dict ℕ OutboxRow)
    → ((lookup j m ≡ none) × (lookup j (adjust id f m) ≡ none))
      ⊎ ((row : OutboxRow) × (lookup j m ≡ some row)
          × (((id ≡ j) × (lookup j (adjust id f m) ≡ some (f row)))
              ⊎ (lookup j (adjust id f m) ≡ some row)))
adjust-lookup id f j m = elim (Option-cases (lookup j m)) [
  | inl absent ↦ inl (
    absent,
    elim (Bool-cases (id == j)) [
      | inl same ↦ ap (lookup j) (adjust_absent id f m (rw ((==_iff id j).0 same) absent)) ∙ absent
      | inr other ↦ lookup-adjust_ne j id f m (λ h. cc ((==_iff id j).1 h, other)) ∙ absent
    ],
  )
  | inr (row, there) ↦ inr (
    row,
    there,
    elim (Bool-cases (id == j)) [
      | inl same ↦
          let equal = (==_iff id j).0 same in
          inl (equal, rw equal (lookup-adjust_self j f row m there))
      | inr other ↦ inr (lookup-adjust_ne j id f m (λ h. cc ((==_iff id j).1 h, other)) ∙ there)
    ],
  )
]

-- An update keeps the events, and its rows are sent only if they were told.
update-Keeps :
    (id : ℕ) (f : OutboxRow → OutboxRow) (s : Outbox)
    → ((row : OutboxRow) → notice_of (f row) ≡ notice_of row)
    → Keeps s (update_row id f s)
update-Keeps id f s same = record {
  rows = λ j row h. elim (adjust-lookup id f j s.rows) [
    | inl (absent, _) ↦ absurd (cc (absent, h))
    | inr (old, there, now) ↦
        let is : old ≡ row = cc (there, h) in
        elim now [
          | inl (_, found) ↦ (f old, found, same old ∙ ap notice_of is)
          | inr found ↦ (old, found, ap notice_of is)
        ]
  ];
  messages = λ m h. h;
}

update-IsHonest :
    (id : ℕ) (f : OutboxRow → OutboxRow) (s : Outbox)
    → IsHonest s
    → ((row : OutboxRow)
        → lookup id s.rows ≡ some row
        → (f row).status ≡ sent
        → InTopic (notice_of (f row)) s.topic)
    → IsHonest (update_row id f s)
update-IsHonest id f s w h = record {
  free = λ j up. elim (adjust-lookup id f j s.rows) [
    | inl (_, absent) ↦ absent
    | inr (old, there, _) ↦ absurd (cc (w.free j up, there))
  ];
  distinct = adjust-Distinct id f s.rows w.distinct;
  told = λ j row found is_sent. elim (adjust-lookup id f j s.rows) [
    | inl (_, absent) ↦ absurd (cc (absent, found))
    | inr (old, there, inl (equal, now)) ↦
        let is : f old ≡ row = cc (now, found) in
        subst (λ r. InTopic (notice_of r) s.topic) is
          (h old (rw equal there) (ap (λ (r : OutboxRow). r.status) is ∙ is_sent))
    | inr (old, there, inr now) ↦
        let is : old ≡ row = cc (now, found) in w.told j row (there ∙ ap some is) is_sent
  ];
}

insert-IsHonest :
    (event_type : Text) (post : ℤ) (now : ℕ) (s : Outbox)
    → IsHonest s
    → IsHonest (insert_outbox event_type post now s)
unfolding insert_outbox
insert-IsHonest event_type post now s w =
    let new = new_outbox_row event_type post now in
    let found =
      λ (id : ℕ). lookup-add_absent id s.next_id new s.rows (w.free s.next_id (omega arith)) in
    record {
      free = λ id h. ground (arith, found id, w.free id (omega (arith, h)));
      distinct = add-Distinct s.next_id new s.rows w.distinct;
      told = λ id row h is_sent. elim (Bool-cases (s.next_id == id)) [
        | inl same ↦
            let is : new ≡ row = ground (arith, found id, same, h) in
            absurd (cc (ap (λ (r : OutboxRow). r.status) is, is_sent))
        | inr other ↦ w.told id row (ground (arith, found id, other, h)) is_sent
      ];
    }

insert-Keeps :
    (event_type : Text) (post : ℤ) (now : ℕ) (s : Outbox)
    → IsHonest s
    → Keeps s (insert_outbox event_type post now s)
unfolding insert_outbox
insert-Keeps event_type post now s w = record {
  rows = λ id row h. (
    row,
    ground (
      arith,
      lookup-add_absent id s.next_id (new_outbox_row event_type post now) s.rows
          (w.free s.next_id (omega arith)),
      w.free s.next_id (omega arith),
      h,
    ),
    refl,
  );
  messages = λ m h. h;
}

Step-IsHonest : {s r : Outbox} → Step s r → IsHonest s → IsHonest r
Step-IsHonest (record_row s event_type post now) w = insert-IsHonest event_type post now s w
Step-IsHonest (claim s id now) w = update-IsHonest id (as_processing now) s w (λ row h e. cc e)
Step-IsHonest (put_back s id now message) w =
    update-IsHonest id (as_pending now message) s w (λ row h e. cc e)
Step-IsHonest (tell s id row there) w = record {
  free = w.free;
  distinct = w.distinct;
  told = λ j other h e.
      InTopic-left (notice_of other) s.topic (notice_of row ∷ []) (w.told j other h e);
}
Step-IsHonest (settle s id now row there told) w =
    update-IsHonest id (as_sent now) s w (λ other h e.
      let is : row ≡ other = cc (there, h) in subst (λ o. InTopic (notice_of o) s.topic) is told)

Step-Keeps : {s r : Outbox} → Step s r → IsHonest s → Keeps s r
Step-Keeps (record_row s event_type post now) w = insert-Keeps event_type post now s w
Step-Keeps (claim s id now) w = update-Keeps id (as_processing now) s (λ row. refl)
Step-Keeps (put_back s id now message) w = update-Keeps id (as_pending now message) s (λ row. refl)
Step-Keeps (tell s id row there) w = record {
  rows = λ j other h. (other, h, refl);
  messages = λ m h. InTopic-left m s.topic (notice_of row ∷ []) h;
}
Step-Keeps (settle s id now row there told) w = update-Keeps id (as_sent now) s (λ row. refl)

-- From an honest outbox, in any interleaving of the statements of publishers and of new rows: the
-- outbox stays honest, which is that a row is marked as sent only when its message is in the topic,
-- each row stays with its event and its post, and each message stays.
pub run-IsHonest : (s r : Outbox) → Run s r → IsHonest s → IsHonest r × Keeps s r
run-IsHonest s r here w = (w, Keeps-refl s)
run-IsHonest s r (next {t} before step) w =
    let (honest, kept) = run-IsHonest s t before w in
    (Step-IsHonest step honest, Keeps-trans s t r kept (Step-Keeps step honest))
