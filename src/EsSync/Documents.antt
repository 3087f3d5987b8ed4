-- ===== src/EsSync/Documents.antt =====
-- Each document moves on in the binlog, in whatever order its changes arrive.
use comment_project.Common.{
  ℕ, ◌≡◌, ◌⊎◌, refl, ap, inl, inr, true, false, not, Option, none, some, arith, ltb, if◌then◌else◌,
  Bool-cases, Option-cases,
}
use comment_project.Common.Outcome.{Outcome, answers, fails, unheard}
use comment_project.Common.Dict.{text_beq}
use comment_project.Common.Text.{Text, codes}
use comment_project.EsSync.{Version, external_version}
use comment_project.EsSync.Row.{
  Doc, Row, post_doc, comment_doc, Target, build_doc, decorate, target_of,
}
use comment_project.EsSync.Index.{
  Elastic, IsElastic, accepts, target_beq, target_beq_iff, Event, Calls, Processed, row_error,
  elastic_error, version_in, current_version, index_document, is_stale, write_row,
  compare_and_write, if_answered, process_row,
}
use comment_project.EsSync.Newest.{IsPosition, newer_position, Inv, put, put-Inv}

-- A change of the document `t`, whose position has the external version `x`.
pub record IsChange (files : ℕ → Text) (event : Event) (t : Target) (x : ℕ) : Type 0 where
  pub target : target_of event.table event.row ≡ some t
  pub position : IsPosition files event.version x

-- A document that the task makes of the event, at some time.
pub record IsDocOf (event : Event) (doc : Doc) : Type 0 where
  pub now : Text
  pub body : Doc
  pub built : build_doc event.table event.event_type event.row now ≡ some body
  pub decorated : doc ≡ decorate event.event_type event.version now body

-- A row that has a target has a document.
target_of-build_doc :
    (table event_type : Text) (row : Row) (now : Text) (t : Target)
    → target_of table row ≡ some t
    → (doc : Doc) × (build_doc table event_type row now ≡ some doc)
unfolding target_of build_doc
target_of-build_doc table event_type row now t h =
    elim (Bool-cases (text_beq table (codes "post"))) [
      | inl post ↦ (post_doc row event_type now, rw post refl)
      | inr other ↦ elim (Bool-cases (text_beq table (codes "study_comment"))) [
        | inl comment ↦ (comment_doc row event_type now, rw (other, comment) refl)
        | inr neither ↦ absurd (ground (arith, other, neither, h))
      ]
    ]

abbrev with_version : Option ℕ → Option Doc → Option (ℕ × Doc)
with_version (some x) (some doc) = some (x, doc)
with_version _ _ = none

-- What an index of documents promises: the document of the greatest version, and of those the first.
abbrev pub newest : Option (ℕ × Doc) → ℕ → Doc → Option (ℕ × Doc)
newest none x doc = some (x, doc)
newest (some (y, old)) x doc = if ltb y x then some (x, doc) else some (y, old)

module _ (e : Elastic) where
  -- the document with its external version
  abbrev pub view : e.State → Target → Option (ℕ × Doc)
  view s t = with_version (e.version s t) (e.source s t)

module _ (e : Elastic) (law : IsElastic e) (files : ℕ → Text) where
  put-view :
      (s : e.State) (t u : Target) (x : ℕ) (doc : Doc)
      → accepts (e.version s t) x ≡ true
      → view e (put e s t x doc) u ≡ (if target_beq t u then some (x, doc) else view e s u)
  put-view s t u x doc h =
      ground (arith, law.source-index s t u x doc, law.version-index s t u x doc, h)

  -- A document is there with its position, or not at all.
  held-cases :
      (s : e.State) (t : Target)
      → Inv e law files s
      → ((e.source s t ≡ none) × (e.version s t ≡ none))
        ⊎ ((doc : Doc) × (v : Version) × (y : ℕ) × (e.source s t ≡ some doc)
            × (e.version s t ≡ some y)
            × (version_in e doc ≡ some v)
            × IsPosition files v y)
  held-cases s t i = elim (Option-cases (e.source s t)) [
    | inl absent ↦ elim (Option-cases (e.version s t)) [
      | inl unversioned ↦ inl (absent, unversioned)
      | inr (x, versioned) ↦ absurd (i.present t x versioned absent)
    ]
    | inr (doc, there) ↦
        let (v, y, is_v, p, is_y) = i.written t doc there in inr (doc, v, y, there, is_y, is_v, p)
  ]

  -- An index request writes or fails; where it answers, it has written.
  index_document-cases :
      (o : Outcome) (s : e.State) (t : Target) (doc : Doc) (v : Version) (x : ℕ)
      → external_version v ≡ some x
      → ((index_document e o t doc v s).1 ≡ put e s t x doc)
        ⊎ (index_document e o t doc v s ≡ (row_error elastic_error, s))
  unfolding index_document
  index_document-cases answers s t doc v x fits = inl (rw fits refl)
  index_document-cases fails s t doc v x fits = inr refl
  index_document-cases unheard s t doc v x fits = inl (rw fits refl)

  module _ (calls : Calls) (event : Event) (t : Target) (x : ℕ)
      (change : IsChange files event t x) where
    -- the document that the change makes
    pub doc_of : Doc
    doc_of =
        decorate event.event_type event.version calls.now
          (target_of-build_doc event.table event.event_type event.row calls.now t change.target).0

    pub doc_of-IsDocOf : IsDocOf event doc_of
    unfolding doc_of
    doc_of-IsDocOf =
        let (body, built) =
          target_of-build_doc event.table event.event_type event.row calls.now t change.target in
        record { now = calls.now; body = body; built = built; decorated = refl }

    write_row-index :
        (s : e.State)
        → write_row e calls event t s ≡ index_document e calls.put t doc_of event.version s
    unfolding write_row doc_of
    write_row-index s =
        rw
          (
            (target_of-build_doc event.table event.event_type event.row calls.now t
                change.target).1,
            write_row,
          )
          refl

    process_row-target :
        (s : e.State)
        → process_row e calls event s
          ≡ if_answered e calls.get s (compare_and_write e calls event t s)
    unfolding process_row
    process_row-target s = rw (change.target, process_row) refl

    compare_and_write-cases :
        (s : e.State)
        → ((write_row e calls event t s).1 ≡ put e s t x doc_of)
          ⊎ (write_row e calls event t s ≡ (row_error elastic_error, s))
    compare_and_write-cases s =
        rw (write_row-index s)
          (index_document-cases calls.put s t doc_of event.version x change.position.fits)

    -- the documents after the change
    abbrev pub moved : e.State → Target → Option (ℕ × Doc)
    moved s u = if target_beq t u then newest (view e s u) x doc_of else view e s u

    -- the change is stale if the document has its version or a greater one
    stale-held :
        (s : e.State) (doc : Doc) (v : Version) (y : ℕ)
        → e.source s t ≡ some doc
        → version_in e doc ≡ some v
        → IsPosition files v y
        → is_stale event.version (current_version e s t) ≡ not (ltb y x)
    unfolding current_version
    stale-held s doc v y there is_v p =
        rw (there, current_version)
          (rw is_v (ap not (newer_position files event.version v x y change.position p)))

    stale-absent :
        (s : e.State) → e.source s t ≡ none → is_stale event.version (current_version e s t) ≡ false
    unfolding current_version
    stale-absent s absent = rw (absent, current_version) refl

    put-moved :
        (s : e.State)
        → Inv e law files s
        → is_stale event.version (current_version e s t) ≡ false
        → (u : Target) → view e (put e s t x doc_of) u ≡ moved s u
    put-moved s i fresh u = elim (held-cases s t i) [
      | inl (absent, unversioned) ↦
          ground (arith, put-view s t u x doc_of, absent, unversioned, target_beq_iff t u)
      | inr (doc, v, y, there, versioned, is_v, p) ↦ ground (
        arith,
        put-view s t u x doc_of,
        there,
        versioned,
        target_beq_iff t u,
        stale-held s doc v y there is_v p,
        fresh,
      )
    ]

    skip-moved :
        (s : e.State)
        → Inv e law files s
        → is_stale event.version (current_version e s t) ≡ true
        → (u : Target) → view e s u ≡ moved s u
    skip-moved s i stale u = elim (held-cases s t i) [
      | inl (absent, unversioned) ↦ absurd (cc (stale-absent s absent, stale))
      | inr (doc, v, y, there, versioned, is_v, p) ↦
          ground
            (arith, there, versioned, target_beq_iff t u, stale-held s doc v y there is_v p, stale)
    ]

    abbrev pub Moves : e.State → Processed × e.State → Type 0
    Moves s r =
        (((u : Target) → view e r.1 u ≡ moved s u) × Inv e law files r.1)
        ⊎ (r ≡ (row_error elastic_error, s))

    write_row-Moves :
        (s : e.State)
        → Inv e law files s
        → is_stale event.version (current_version e s t) ≡ false
        → Moves s (write_row e calls event t s)
    unfolding doc_of
    write_row-Moves s i fresh = elim (compare_and_write-cases s) [
      | inl written ↦ inl (
        (λ u. rw written (put-moved s i fresh u)),
        rw written (
            put-Inv e law files s t x event.event_type event.version calls.now _ change.position i),
      )
      | inr failed ↦ inr failed
    ]

    compare_and_write-Moves :
        (s : e.State) → Inv e law files s → Moves s (compare_and_write e calls event t s)
    unfolding compare_and_write
    compare_and_write-Moves s i =
        elim (Bool-cases (is_stale event.version (current_version e s t))) [
          | inl stale ↦ rw stale (inl (skip-moved s i stale, i))
          | inr fresh ↦ rw fresh (write_row-Moves s i fresh)
        ]

    if_answered-Moves :
        (o : Outcome) (s : e.State) (r : Processed × e.State)
        → Moves s r
        → Moves s (if_answered e o s r)
    if_answered-Moves answers s r m = m
    if_answered-Moves fails s r m = inr refl
    if_answered-Moves unheard s r m = inr refl

    pub process_row-Moves :
        (s : e.State) → Inv e law files s → Moves s (process_row e calls event s)
    process_row-Moves s i = rw (process_row-target s) (
        if_answered-Moves calls.get s (compare_and_write e calls event t s)
          (compare_and_write-Moves s i))
