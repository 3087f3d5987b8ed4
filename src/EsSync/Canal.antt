-- ===== src/EsSync/Canal.antt =====
-- What Canal delivers, and what of it survives the JSON of a retry row.
use comment_project.Common.{ℕ, ◌≡◌, some, All}
use comment_project.Common.Text.{Text}
use comment_project.EsSync.Row.{Value, null, string, Target, target_of}
use comment_project.EsSync.Index.{Event}
use comment_project.EsSync.Newest.{IsPosition}
use comment_project.EsSync.Binlog.{Binlog}
use comment_project.EsSync.Retry.{Payload, Codec}

-- An event whose target, if it has one, gets a position in the binlog.
abbrev pub Positioned : (ℕ → Text) → Event → Type 0
Positioned files event =
    (t : Target)
    → target_of event.table event.row ≡ some t
    → (x : ℕ) × IsPosition files event.version x

abbrev pub IsText : Value → Type 0
IsText null = Unit
IsText (string t) = Unit
IsText _ = ⊥

-- A change of the binlog whose values are strings or null, as Canal writes them, and which has a position.
pub record IsCanal (files : Binlog) (event : Event) : Type 0 where
  pub positioned : Positioned files.name event
  pub textual : All (λ (entry : Text × Value). IsText entry.1) event.row
  pub logged : files.Logged event

-- What encoding/json documents: a payload whose row has no numbers is read back as it was.
pub record IsCodec (codec : Codec) : Type 0 where
  pub reread :
      (p : Payload) (text : Text)
      → All (λ (entry : Text × Value). IsText entry.1) p.event.row
      → codec.marshal p ≡ some text
      → codec.unmarshal text ≡ some p
