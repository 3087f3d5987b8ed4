-- ===== src/EsSync/Lossless.antt =====
-- A message whose offset is committed has lost no event.
use comment_project.Common.{
  ℕ, ◌+◌, ◌≡◌, ◌⊎◌, sym, subst, refl, inl, inr, Bool, true, false, none, some, List, [], ◌∷◌, All,
  Bool-cases, Option-cases,
}
use comment_project.EsSync.Row.{Target, target_of}
use comment_project.EsSync.Index.{
  Elastic, IsElastic, Event, Calls, Processed, synced, row_error, invalid_id, process_row,
}
use comment_project.EsSync.Binlog.{Binlog, Reached, IsIndex, AtLeast-Reached, Reached-AtLeast}
use comment_project.EsSync.Documents.{IsChange}
use comment_project.EsSync.Runs.{Change, keeps-IsIndex, synced-AtLeast, keeps-AtLeast}
use comment_project.EsSync.Retry.{Codec, of_row, SaveCalls}
use comment_project.EsSync.Handlers.{
  Sync, EventCalls, after_row, handle_event, handle_events, handle_message,
}
use comment_project.EsSync.Messages.{KafkaMessage, Decoders, parse_message}
use comment_project.EsSync.Canal.{Positioned, IsCanal}
use comment_project.EsSync.Saved.{IsTables, Saved, save_retry-Saves}

module _ (e : Elastic) (law : IsElastic e) (files : Binlog) where
  -- The event, a change of the binlog, stands in the index, or a later change of its document does.
  abbrev pub Indexed : Event → e.State → Type 0
  Indexed event docs =
      (t : Target) × (x : ℕ) × files.Logged event
      × IsChange files.name event t x
      × Reached e files docs event t x

  -- The state of the index stays well formed, and keeps the events that are in it.
  pub record Advances (s r : e.State) : Type 0 where
    pub inv : IsIndex e law files r
    pub keeps : (event : Event) → Indexed event s → Indexed event r

  same-Advances : (s : e.State) → IsIndex e law files s → Advances s s
  same-Advances s i = record { inv = i; keeps = λ event h. h }

  untargeted :
      (calls : Calls) (event : Event) (s : e.State)
      → target_of event.table event.row ≡ none
      → process_row e calls event s ≡ (row_error invalid_id, s)
  unfolding process_row
  untargeted calls event s h = rw (h, process_row) refl

  pub row-Advances :
      (calls : Calls) (event : Event) (s : e.State)
      → Positioned files.name event
      → files.Logged event
      → IsIndex e law files s
      → Advances s (process_row e calls event s).1
        × ((process_row e calls event s).0 ≡ synced → Indexed event (process_row e calls event s).1)
  row-Advances calls event s p logged w = elim (Option-cases (target_of event.table event.row)) [
    | inl none_of ↦ rw (untargeted calls event s none_of) (same-Advances s w, λ h. cc h)
    | inr (t, found) ↦
        let (x, position) = p t found in
        let c : Change files = record {
          calls = calls;
          event = event;
          target = t;
          number = x;
          is = record { target = found; position = position };
          logged = logged;
        } in
        let next = keeps-IsIndex e law files c s w.inv w in
        let still = AtLeast-Reached e law files (process_row e calls event s).1 in
        (
          record {
            inv = next;
            keeps = λ other (u, y, known, change, r). (
              u,
              y,
              known,
              change,
              still other u y next known change (
                  keeps-AtLeast e law files c s w.inv u y
                    (Reached-AtLeast e law files s other u y change r)),
            );
          },
          λ h. (
            t,
            x,
            logged,
            c.is,
            still event t x next logged c.is (synced-AtLeast e law files c s w.inv h),
          ),
        )
  ]

  module _ (codec : Codec) where
    -- The event is in the index, or in the tables.
    abbrev pub Landed : Event → Sync e → Type 0
    Landed event s = Indexed event s.docs ⊎ Saved codec event s.tables

    pub record IsSound (s : Sync e) : Type 0 where
      pub inv : IsIndex e law files s.docs
      pub tables : IsTables codec (IsCanal files) s.tables

    -- The state stays sound and keeps every event; an event that was handled without an error has landed.
    abbrev pub Handles : Event → Sync e → Bool × Sync e → Type 0
    Handles event s r =
        IsSound r.1
        × ((other : Event) → Landed other s → Landed other r.1)
        × (r.0 ≡ true → Landed event r.1)

    after_row-Handles :
        (calls : SaveCalls) (event : Event) (r : Processed × e.State) (s : Sync e)
        → IsSound s
        → IsCanal files event
        → Advances s.docs r.1
        → (r.0 ≡ synced → Indexed event r.1)
        → Handles event s (after_row e codec calls event r s.tables)
    unfolding after_row
    after_row-Handles calls event (synced, docs) s w good a h = (
      record { inv = a.inv; tables = w.tables },
      (λ other l. elim l [ inl d ↦ inl (a.keeps other d) | inr saved ↦ inr saved ]),
      λ _. inl (h refl),
    )
    after_row-Handles calls event (row_error cause, docs) s w good a h =
        let (grows, saved) =
          save_retry-Saves codec (IsCanal files) calls event (of_row cause) s.tables w.tables
            good in
        (
          record { inv = a.inv; tables = grows.fresh },
          (λ other l. elim l [ inl d ↦ inl (a.keeps other d) | inr d ↦ inr (grows.keeps other d) ]),
          λ done. inr (saved done),
        )

    handle_event-Handles :
        (calls : EventCalls) (event : Event) (s : Sync e)
        → IsSound s
        → IsCanal files event
        → Handles event s (handle_event e codec calls event s)
    unfolding handle_event
    handle_event-Handles calls event s w p =
        let (a, h) = row-Advances calls.row event s.docs p.positioned p.logged w.inv in
        after_row-Handles calls.save event (process_row e calls.row event s.docs) s w p a h

    handle_events-next :
        (calls : ℕ → EventCalls) (n : ℕ) (event : Event) (events : List Event) (s : Sync e)
        → (handle_event e codec (calls n) event s).0 ≡ true
        → handle_events e codec calls n (event ∷ events) s
          ≡ handle_events e codec calls (n + 1) events (handle_event e codec (calls n) event s).1
    unfolding handle_events
    handle_events-next calls n event events s done = rw done refl

    handle_events-stop :
        (calls : ℕ → EventCalls) (n : ℕ) (event : Event) (events : List Event) (s : Sync e)
        → (handle_event e codec (calls n) event s).0 ≡ false
        → handle_events e codec calls n (event ∷ events) s
          ≡ (false, (handle_event e codec (calls n) event s).1)
    unfolding handle_events
    handle_events-stop calls n event events s stopped = rw stopped refl

    -- The same of the events of a message.
    abbrev HandlesAll : List Event → Sync e → Bool × Sync e → Type 0
    HandlesAll events s r =
        IsSound r.1
        × ((other : Event) → Landed other s → Landed other r.1)
        × (r.0 ≡ true → All (λ event. Landed event r.1) events)

    no_events :
        (calls : ℕ → EventCalls) (n : ℕ) (s : Sync e)
        → IsSound s
        → HandlesAll [] s (handle_events e codec calls n [] s)
    unfolding handle_events
    no_events calls n s w = (w, (λ other l. l), λ _. tt)

    handle_events-HandlesAll :
        (calls : ℕ → EventCalls) (n : ℕ) (events : List Event) (s : Sync e)
        → IsSound s
        → All (IsCanal files) events
        → HandlesAll events s (handle_events e codec calls n events s)
    handle_events-HandlesAll calls n [] s w p = no_events calls n s w
    handle_events-HandlesAll calls n (event ∷ events) s w p =
        let (sound, keep, land) = handle_event-Handles (calls n) event s w p.0 in
        elim (Bool-cases (handle_event e codec (calls n) event s).0) [
          | inr stopped ↦
              subst (HandlesAll (event ∷ events) s)
                (sym (handle_events-stop calls n event events s stopped)) (sound, keep, λ h. cc h)
          | inl done ↦
              let (sound', keep', land') =
                handle_events-HandlesAll calls (n + 1) events
                  (handle_event e codec (calls n) event s).1 sound p.1 in
              subst (HandlesAll (event ∷ events) s)
                (sym (handle_events-next calls n event events s done))
                (
                  sound',
                  (λ other l. keep' other (keep other l)),
                  λ h. (keep' event (land done), land' h),
                )
        ]

    -- From a sound state of the index and the tables, where each event of a message is a change of the
    -- binlog with a position and with texts for its values: whatever calls fail, the state stays sound
    -- and no change of the binlog that was in the index or in the tables is lost; and if the message
    -- is handled without an error, so that its offset is committed, each of its events stands in the
    -- index as the document that the task makes of it, or a later change of its document does, or
    -- it is saved in a table, to be retried or as a dead letter. In the binlog a document has at most
    -- one change at a position.
    pub handle_message-lossless :
        (decoders : Decoders) (poison : SaveCalls) (calls : ℕ → EventCalls) (m : KafkaMessage)
        (events : List Event) (s : Sync e)
        → parse_message decoders m ≡ some events
        → IsSound s
        → All (IsCanal files) events
        → IsSound (handle_message e codec decoders poison calls m s).1
          × ((other : Event)
              → Landed other s
              → Landed other (handle_message e codec decoders poison calls m s).1)
          × ((handle_message e codec decoders poison calls m s).0 ≡ true
              → All
                  (λ event. Landed event (handle_message e codec decoders poison calls m s).1)
                  events)
    unfolding handle_message
    handle_message-lossless decoders poison calls m events s parsed w p =
        rw (handle_message, parsed) (handle_events-HandlesAll calls 0 events s w p)
