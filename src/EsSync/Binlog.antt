-- ===== src/EsSync/Binlog.antt =====
-- The changes that the binlog holds, and what the index holds of them.
use comment_project.Common.{
  ℕ, ◌≤◌, ◌<◌, ◌≡◌, ◌⊎◌, inl, inr, ◌==◌, ==_iff, some, arith, subst, sym, ap, ◌∙◌, Bool-cases,
}
use comment_project.Common.Text.{Text}
use comment_project.EsSync.{external_version}
use comment_project.EsSync.Row.{Doc, Target}
use comment_project.EsSync.Index.{Elastic, IsElastic, Event}
use comment_project.EsSync.Newest.{Inv}
use comment_project.EsSync.Documents.{IsChange, IsDocOf, view}

-- A binlog: the name of each file, and the changes; a document has one change at a position.
pub record Binlog : Type 1 where
  pub name : ℕ → Text
  pub Logged : Event → Type 0
  pub once :
      (a b : Event) (t : Target) (x : ℕ)
      → Logged a
      → Logged b
      → IsChange name a t x
      → IsChange name b t x
      → a ≡ b

module _ (e : Elastic) where
  -- The document is there, with the version or a greater one.
  abbrev pub AtLeast : e.State → Target → ℕ → Type 0
  AtLeast s u x = (y : ℕ) × (doc : Doc) × (view e s u ≡ some (y, doc)) × (x ≤ y)

  -- The document is there as the task makes it of the change `event`, which has the version `x`, or of
  -- a later change of the binlog.
  pub record Reached (files : Binlog) (s : e.State) (event : Event) (t : Target) (x : ℕ)
      : Type 0 where
    pub number : ℕ
    pub doc : Doc
    pub by : Event
    pub there : view e s t ≡ some (number, doc)
    pub logged : files.Logged by
    pub change : IsChange files.name by t number
    pub made : IsDocOf by doc
    pub latest : (by ≡ event) ⊎ (x < number)

module _ (e : Elastic) (law : IsElastic e) (files : Binlog) where
  -- Every document of the index is made of a change of the binlog, and has its version.
  pub record IsIndex (s : e.State) : Type 0 where
    pub inv : Inv e law files.name s
    pub sourced :
        (t : Target) (y : ℕ) (doc : Doc)
        → view e s t ≡ some (y, doc)
        → (by : Event) × files.Logged by × IsChange files.name by t y × IsDocOf by doc

  pub AtLeast-Reached :
      (s : e.State) (event : Event) (t : Target) (x : ℕ)
      → IsIndex s
      → files.Logged event
      → IsChange files.name event t x
      → AtLeast e s t x
      → Reached e files s event t x
  AtLeast-Reached s event t x i logged change (y, doc, there, up) =
      let (by, by_logged, by_change, made) = i.sourced t y doc there in
      record {
        number = y;
        doc = doc;
        by = by;
        there = there;
        logged = by_logged;
        change = by_change;
        made = made;
        latest = elim (Bool-cases (x == y)) [
          | inl same ↦ inl (
              files.once by event t y by_logged logged by_change
                (subst (IsChange files.name event t) ((==_iff x y).0 same) change))
          | inr other ↦ inr (ground (arith, other, up, ==_iff x y))
        ];
      }

  pub Reached-AtLeast :
      (s : e.State) (event : Event) (t : Target) (x : ℕ)
      → IsChange files.name event t x
      → Reached e files s event t x
      → AtLeast e s t x
  Reached-AtLeast s event t x change r = (
    r.number,
    r.doc,
    r.there,
    elim r.latest [
      | inr later ↦ omega (arith, later)
      | inl same ↦
          let fits = ap (λ (ev : Event). external_version ev.version) same in
          let equal : some r.number ≡ some x =
            sym r.change.position.fits ∙ fits ∙ change.position.fits in
          ground (arith, equal)
    ],
  )
