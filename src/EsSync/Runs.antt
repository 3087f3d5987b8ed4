-- ===== src/EsSync/Runs.antt =====
-- Rows that are processed in any order, some of them again, some with an error.
use comment_project.Common.{
  ℕ, ◌≤◌, ◌≡◌, ◌⊎◌, ◌∙◌, sym, subst, refl, ap, inl, inr, Option, none, some, List, [], ◌∷◌, arith,
  ltb, Bool-cases,
}
use comment_project.EsSync.Row.{Doc, Target}
use comment_project.EsSync.Index.{
  Elastic, IsElastic, target_beq, target_beq_iff, Event, Calls, Processed, synced, process_row,
}
use comment_project.EsSync.Newest.{Inv}
use comment_project.EsSync.Binlog.{Binlog, AtLeast, Reached, IsIndex, AtLeast-Reached}
use comment_project.EsSync.Documents.{
  IsDocOf, doc_of-IsDocOf, IsChange, view, newest, doc_of, moved, Moves, process_row-Moves,
}

newest-reaches :
    (o : Option (ℕ × Doc)) (x : ℕ) (d : Doc)
    → (y : ℕ) × (c : Doc) × (newest o x d ≡ some (y, c)) × (x ≤ y)
newest-reaches none x d = (x, d, refl, omega arith)
newest-reaches (some (w, c)) x d = elim (Bool-cases (ltb w x)) [
  | inl newer ↦ (x, d, rw newer refl, omega arith)
  | inr older ↦ (w, c, rw older refl, ground (arith, older))
]

newest-keeps :
    (w : ℕ) (c : Doc) (x : ℕ) (d : Doc)
    → (y : ℕ) × (b : Doc) × (newest (some (w, c)) x d ≡ some (y, b)) × (w ≤ y)
newest-keeps w c x d = elim (Bool-cases (ltb w x)) [
  | inl newer ↦ (x, d, rw newer refl, ground (arith, newer))
  | inr older ↦ (w, c, rw older refl, omega arith)
]

newest-cases :
    (o : Option (ℕ × Doc)) (x : ℕ) (d : Doc) → (newest o x d ≡ o) ⊎ (newest o x d ≡ some (x, d))
newest-cases none x d = inr refl
newest-cases (some (w, c)) x d = elim (Bool-cases (ltb w x)) [
  | inl newer ↦ inr (rw newer refl)
  | inr older ↦ inl (rw older refl)
]

-- The processing of a change of the binlog, with how its requests end.
pub record Change (files : Binlog) : Type 0 where
  pub calls : Calls
  pub event : Event
  pub target : Target
  pub number : ℕ
  pub is : IsChange files.name event target number
  pub logged : files.Logged event

module _ (e : Elastic) (files : Binlog) where
  -- The state after the changes have been processed.
  unfoldable pub run : List (Change files) → e.State → e.State
  run [] s = s
  run (c ∷ cs) s = run cs (process_row e c.calls c.event s).1

  -- Each change that was processed without an error stands in the state `after`, or a later one.
  abbrev pub Kept : List (Change files) → e.State → e.State → Type 0
  Kept [] s after = Unit
  Kept (c ∷ cs) s after =
      ((process_row e c.calls c.event s).0 ≡ synced
        → Reached e files after c.event c.target c.number)
      × Kept cs (process_row e c.calls c.event s).1 after

module _ (e : Elastic) (law : IsElastic e) (files : Binlog) where
  abbrev made : Change files → Doc
  made c = doc_of e law files.name c.calls c.event c.target c.number c.is

  -- It is the document of one of the changes.
  abbrev pub MadeBy : List (Change files) → Target → Option (ℕ × Doc) → Type 0
  MadeBy [] u o = ⊥
  MadeBy (c ∷ cs) u o = ((c.target ≡ u) × (o ≡ some (c.number, made c))) ⊎ MadeBy cs u o

  module _ (c : Change files) (s : e.State) (i : Inv e law files.name s) where
    abbrev pub after : e.State
    after = (process_row e c.calls c.event s).1

    moves :
        Moves e law files.name c.calls c.event c.target c.number c.is s
          (process_row e c.calls c.event s)
    moves = process_row-Moves e law files.name c.calls c.event c.target c.number c.is s i

    pub keeps-Inv : Inv e law files.name after
    keeps-Inv = elim moves [
      | inl (_, kept) ↦ kept
      | inr same ↦ subst (Inv e law files.name) (sym (ap (λ (r : Processed × e.State). r.1) same)) i
    ]

    synced-moves :
        (process_row e c.calls c.event s).0 ≡ synced
        → (u : Target)
        → view e after u ≡ moved e law files.name c.calls c.event c.target c.number c.is s u
    synced-moves h = elim moves [ inl (m, _) ↦ m | inr same ↦ cc (ap (λ r. r.0) same, h) ]

    moves-view :
        (u : Target)
        → (view e after u ≡ moved e law files.name c.calls c.event c.target c.number c.is s u)
          ⊎ (view e after u ≡ view e s u)
    moves-view u = elim moves [
      | inl (m, _) ↦ inl (m u)
      | inr same ↦ inr (ap (λ r. view e r.1 u) same)
    ]

    pub synced-AtLeast :
        (process_row e c.calls c.event s).0 ≡ synced → AtLeast e after c.target c.number
    synced-AtLeast h =
        let (y, d, is, up) = newest-reaches (view e s c.target) c.number (made c) in
        (
          y,
          d,
          (synced-moves h c.target ∙ ground (arith, target_beq_iff c.target c.target)) ∙ is,
          up,
        )

    pub keeps-AtLeast : (u : Target) (x : ℕ) → AtLeast e s u x → AtLeast e after u x
    keeps-AtLeast u x (w, d, is, up) = elim (moves-view u) [
      | inr same ↦ (w, d, same ∙ is, up)
      | inl m ↦ elim (Bool-cases (target_beq c.target u)) [
        | inr other ↦ (w, d, m ∙ rw (other, is) refl, up)
        | inl same ↦
            let (y, b, is', up') = newest-keeps w d c.number (made c) in
            (y, b, m ∙ rw (same, is) is', omega (arith, up, up'))
      ]
    ]

    view-MadeBy :
        (u : Target)
        → (view e after u ≡ view e s u)
          ⊎ ((c.target ≡ u) × (view e after u ≡ some (c.number, made c)))
    view-MadeBy u = elim (moves-view u) [
      | inr same ↦ inl same
      | inl m ↦ elim (Bool-cases (target_beq c.target u)) [
        | inr other ↦ inl (m ∙ rw other refl)
        | inl same ↦ elim (newest-cases (view e s u) c.number (made c)) [
          | inl kept ↦ inl (m ∙ rw same kept)
          | inr new ↦ inr ((target_beq_iff c.target u).0 same, m ∙ rw same new)
        ]
      ]
    ]

    pub keeps-IsIndex : IsIndex e law files s → IsIndex e law files after
    keeps-IsIndex w = record {
      inv = keeps-Inv;
      sourced = λ u y doc h. elim (view-MadeBy u) [
        | inl same ↦ w.sourced u y doc (sym same ∙ h)
        | inr (target, new) ↦
            let pair : some (c.number, made c) ≡ some (y, doc) = sym new ∙ h in
            let number : c.number ≡ y = cc pair in
            let is_made : made c ≡ doc = cc pair in
            (
              c.event,
              c.logged,
              subst (λ t. IsChange files.name c.event t y) target
                  (subst (IsChange files.name c.event c.target) number c.is),
              subst (IsDocOf c.event) is_made
                  (doc_of-IsDocOf e law files.name c.calls c.event c.target c.number c.is),
            )
      ];
    }

  keeps :
      (cs : List (Change files)) (s : e.State)
      → Inv e law files.name s
      → (u : Target) (x : ℕ) → AtLeast e s u x
      → AtLeast e (run e files cs s) u x
  unfolding run
  keeps [] s i u x k = k
  keeps (c ∷ cs) s i u x k =
      keeps cs (after c s i) (keeps-Inv c s i) u x (keeps-AtLeast c s i u x k)

  run-IsIndex :
      (cs : List (Change files)) (s : e.State)
      → IsIndex e law files s
      → IsIndex e law files (run e files cs s)
  unfolding run
  run-IsIndex [] s w = w
  run-IsIndex (c ∷ cs) s w = run-IsIndex cs (after c s w.inv) (keeps-IsIndex c s w.inv w)

  -- From a state whose documents are made of changes of the binlog, however the changes are ordered
  -- and repeated, and whichever of their requests fail: each change that was processed without an
  -- error stands in the index at the end as the document that the task makes of it, or the document
  -- is made of a later change of the binlog; each document is the one that stood there before or that
  -- one of the changes makes; and a document that was there is never replaced by one of a lesser
  -- version. In the binlog a document has at most one change at a position.
  pub run-newest :
      (cs : List (Change files)) (s : e.State)
      → IsIndex e law files s
      → Kept e files cs s (run e files cs s)
        × ((u : Target)
            → (view e (run e files cs s) u ≡ view e s u)
              ⊎ MadeBy cs u (view e (run e files cs s) u))
        × ((u : Target) (x : ℕ) → AtLeast e s u x → AtLeast e (run e files cs s) u x)
  unfolding run
  run-newest [] s w = (tt, (λ u. inl refl), λ u x k. k)
  run-newest (c ∷ cs) s w =
      let i = w.inv in
      let v = keeps-IsIndex c s i w in
      let (later, from, grows) = run-newest cs (after c s i) v in
      (
        (
          (λ h.
              AtLeast-Reached e law files (run e files cs (after c s i)) c.event c.target c.number
                (run-IsIndex cs (after c s i) v) c.logged c.is
                (grows c.target c.number (synced-AtLeast c s i h))),
          later,
        ),
        (λ u. elim (from u) [
          | inr made_later ↦ inr (inr made_later)
          | inl same ↦ elim (view-MadeBy c s i u) [
            | inl before ↦ inl (same ∙ before)
            | inr (target, now) ↦ inr (inl (target, same ∙ now))
          ]
        ]),
        keeps (c ∷ cs) s i,
      )
