-- ===== src/EsSync/Newest.antt =====
-- The positions of the binlog that documents hold, and the invariant of what the task writes.
use comment_project.Common.{
  ℕ, ◌<◌, ◌≡◌, ◌≢◌, ◌⊎◌, ◌∙◌, sym, refl, ap, inl, inr, false, ◌&&◌, none, some, arith, ltb,
  Bool-cases,
}
use comment_project.Common.Dict.{text_eq, text_beq, text_beq_iff, lookup, lookup-insert}
use comment_project.Common.Text.{Text, codes}
use comment_project.Common.Trim.{trim_space, is_empty}
use comment_project.EsSync.{Version, is_newer, external_version}
use comment_project.EsSync.Order.{IsBinlog, external_version-is_newer}
use comment_project.EsSync.Row.{integer, words, Doc, Target, Value, string, to_int64, decorate}
use comment_project.EsSync.Index.{
  Elastic, IsElastic, accepts, target_beq, version_of, version_in, version_in-fields,
}

-- A position in a series of binlog files, one file for a sequence number, with its external version.
pub record IsPosition (files : ℕ → Text) (v : Version) (x : ℕ) : Type 0 where
  pub sequence : ℕ
  pub offset : ℕ
  pub binlog : IsBinlog v sequence offset
  pub named : v.file ≡ files sequence
  pub started : 0 < offset
  pub trimmed : trim_space v.file ≡ v.file
  pub not_empty : is_empty v.file ≡ false
  pub fits : external_version v ≡ some x

pub newer_position :
    (files : ℕ → Text) (v w : Version) (x y : ℕ)
    → IsPosition files v x
    → IsPosition files w y
    → is_newer v w ≡ ltb y x
newer_position files v w x y a b =
    let compared = λ (h : (v.file ≡ w.file) ⊎ ((v.file ≢ w.file) × (a.sequence ≢ b.sequence))).
      external_version-is_newer v w a.sequence b.sequence a.offset b.offset x y a.binlog b.binlog h
        a.fits b.fits in
    elim (Bool-cases (text_beq v.file w.file)) [
      | inl same ↦ ground (arith, (compared (inl ((text_beq_iff v.file w.file).0 same))).0)
      | inr other ↦
          let apart : v.file ≢ w.file = λ e. cc ((text_beq_iff v.file w.file).1 e, other) in
          let sequences : a.sequence ≢ b.sequence =
            λ e. apart (a.named ∙ ap files e ∙ sym b.named) in
          ground (arith, (compared (inr (apart, sequences))).0)
    ]

decorated_file :
    (event_type : Text) (v : Version) (now : Text) (doc : Doc)
    → lookup (codes "sync_binlog_file") (decorate event_type v now doc) ≡ some (words v.file)
unfolding decorate text_beq
decorated_file event_type v now doc = simp lookup-insert (refl)

decorated_position :
    (event_type : Text) (v : Version) (now : Text) (doc : Doc)
    → lookup (codes "sync_binlog_pos") (decorate event_type v now doc) ≡ some (integer v.position)
unfolding decorate text_beq
decorated_position event_type v now doc = simp lookup-insert (refl)

version_of-read :
    (files : ℕ → Text) (v : Version) (x : ℕ) (position : Value)
    → IsPosition files v x
    → to_int64 position ≡ v.position
    → version_of (string v.file) position ≡ some v
unfolding version_of
version_of-read files v x position p h =
    rw h (ground (arith, p.trimmed, p.not_empty, p.started, p.binlog.position))

module _ (e : Elastic) where
  abbrev pub put : e.State → Target → ℕ → Doc → e.State
  put s t x doc = (e.index s t (some x) doc).1

module _ (e : Elastic) (law : IsElastic e) (files : ℕ → Text) where
  decorated-version_in :
      (event_type : Text) (v : Version) (x : ℕ) (now : Text) (doc : Doc)
      → IsPosition files v x
      → version_in e (decorate event_type v now doc) ≡ some v
  decorated-version_in event_type v x now doc p =
      version_in-fields e (decorate event_type v now doc) (words v.file) (integer v.position)
        (decorated_file event_type v now doc) (decorated_position event_type v now doc)
      ∙ ap (λ r. version_of r (e.reread (integer v.position))) (law.reread_words v.file)
      ∙ version_of-read files v x (e.reread (integer v.position)) p
          (rw p.binlog.position (law.reread_integer p.offset (omega (arith, p.binlog.in_file))))

  -- Every document was written for a position, and its version is the position's.
  pub record Inv (s : e.State) : Type 0 where
    pub written :
        (t : Target) (doc : Doc)
        → e.source s t ≡ some doc
        → (v : Version) × (x : ℕ) × (version_in e doc ≡ some v)
          × IsPosition files v x
          × (e.version s t ≡ some x)
    pub present : (t : Target) (x : ℕ) → e.version s t ≡ some x → e.source s t ≢ none

  pub put-Inv :
      (s : e.State) (t : Target) (x : ℕ) (event_type : Text) (v : Version) (now : Text) (doc : Doc)
      → IsPosition files v x
      → Inv s
      → Inv (put e s t x (decorate event_type v now doc))
  put-Inv s t x event_type v now doc p i =
      let doc' = decorate event_type v now doc in
      record {
        written = λ u d h. elim (Bool-cases (accepts (e.version s t) x && target_beq t u)) [
          | inl replaced ↦
              let is_doc : doc' ≡ d = ground (arith, law.source-index s t u x doc', replaced, h) in
              (
                v,
                x,
                rw (← is_doc) (decorated-version_in event_type v x now doc p),
                p,
                ground (arith, law.version-index s t u x doc', replaced),
              )
          | inr kept ↦
              let before : e.source s u ≡ some d =
                ground (arith, law.source-index s t u x doc', kept, h) in
              let (w, y, is_w, q, is_y) = i.written u d before in
              (w, y, is_w, q, ground (arith, law.version-index s t u x doc', kept, is_y))
        ];
        present = λ u y h. elim (Bool-cases (accepts (e.version s t) x && target_beq t u)) [
          | inl replaced ↦ ground (arith, law.source-index s t u x doc', replaced)
          | inr kept ↦ ground (
            arith,
            law.source-index s t u x doc',
            law.version-index s t u x doc',
            kept,
            i.present u y,
          )
        ];
      }
