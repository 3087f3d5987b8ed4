-- ===== src/EsSync/Tests/Lengths.antt =====
-- A codec that writes the length of each text before it.
use comment_project.Common.{
  ℕ, zero, suc, ◌≡◌, refl, ap, Option, some, [], ◌∷◌, ◌++◌, length, take, All,
}
use comment_project.Common.Int.{ℤ, pos, negsuc}
use comment_project.Common.Text.{Text}
use comment_project.Common.Trim.{drop}
use comment_project.EsSync.Row.{Value, null, string, number, other, float, Row}
use comment_project.EsSync.Canal.{IsText, IsCodec}
use comment_project.EsSync.Retry.{Payload, Codec}

abbrev put_text : Text → Text → Text
put_text t rest = length t ∷ (t ++ rest)

abbrev text_of : Text → Text
text_of [] = []
text_of (n ∷ s) = take n s

abbrev rest_of : Text → Text
rest_of [] = []
rest_of (n ∷ s) = drop n s

take_text : (t rest : Text) → take (length t) (t ++ rest) ≡ t
take_text [] rest = refl
take_text (c ∷ t) rest = ap (λ s. c ∷ s) (take_text t rest)

drop_text : (t rest : Text) → drop (length t) (t ++ rest) ≡ rest
drop_text [] rest = refl
drop_text (c ∷ t) rest = drop_text t rest

abbrev put_int : ℤ → Text → Text
put_int (pos n) rest = 0 ∷ n ∷ rest
put_int (negsuc n) rest = 1 ∷ n ∷ rest

abbrev int_of : Text → ℤ
int_of (zero ∷ n ∷ s) = pos n
int_of (suc k ∷ n ∷ s) = negsuc n
int_of s = pos 0

abbrev after_int : Text → Text
after_int (c ∷ n ∷ s) = s
after_int s = []

abbrev put_value : Value → Text → Text
put_value (string t) rest = 1 ∷ put_text t rest
put_value v rest = 0 ∷ rest

abbrev value_of : Text → Value
value_of [] = null
value_of (zero ∷ s) = null
value_of (suc k ∷ s) = string (text_of s)

abbrev after_value : Text → Text
after_value [] = []
after_value (zero ∷ s) = s
after_value (suc k ∷ s) = rest_of s

abbrev put_row : Row → Text
put_row [] = []
put_row ((name, v) ∷ row) = put_text name (put_value v (put_row row))

abbrev row_of : ℕ → Text → Row
row_of zero s = []
row_of (suc n) s = (text_of s, value_of (rest_of s)) ∷ row_of n (after_value (rest_of s))

abbrev entries : Row → ℕ
entries [] = 0
entries (x ∷ row) = suc (entries row)

row_of-put_row :
    (row : Row)
    → All (λ (entry : Text × Value). IsText entry.1) row
    → row_of (entries row) (put_row row) ≡ row
row_of-put_row [] h = refl
row_of-put_row ((name, null) ∷ row) h =
    rw (take_text name (0 ∷ put_row row), drop_text name (0 ∷ put_row row), row_of-put_row row h.1)
      refl
row_of-put_row ((name, string t) ∷ row) h =
    rw
      (
        take_text name (1 ∷ put_text t (put_row row)),
        drop_text name (1 ∷ put_text t (put_row row)),
        take_text t (put_row row),
        drop_text t (put_row row),
        row_of-put_row row h.1,
      )
      refl
row_of-put_row ((name, number t) ∷ row) h = absurd h.0
row_of-put_row ((name, other t) ∷ row) h = absurd h.0
row_of-put_row ((name, float n t) ∷ row) h = absurd h.0

abbrev write : Payload → Text
write p = put_text p.event.table (
    put_text p.event.event_type (
      put_text p.event.version.file (
        put_int p.event.version.position (
          put_text p.target.index (
            put_text p.target.doc_id
              (put_text p.received_at (entries p.event.row ∷ put_row p.event.row)))))))

abbrev row_read : Text → Row
row_read [] = []
row_read (n ∷ s) = row_of n s

abbrev read : Text → Payload
read s0 =
    let s1 = rest_of s0 in
    let s2 = rest_of s1 in
    let s3 = rest_of s2 in
    let s4 = after_int s3 in
    let s5 = rest_of s4 in
    let s6 = rest_of s5 in
    record {
      event = record {
        table = text_of s0;
        event_type = text_of s1;
        row = row_read (rest_of s6);
        version = record { file = text_of s2; position = int_of s3 };
      };
      target = record { index = text_of s4; doc_id = text_of s5 };
      received_at = text_of s6;
    }

abbrev pub lengths : Codec
lengths = record {
  marshal = λ p. some (write p);
  unmarshal = λ t. some (read t);
  marshal_row = put_row;
  base64 = λ t. t;
}

int_of-put_int : (z : ℤ) (rest : Text) → int_of (put_int z rest) ≡ z
int_of-put_int (pos n) rest = refl
int_of-put_int (negsuc n) rest = refl

after_int-put_int : (z : ℤ) (rest : Text) → after_int (put_int z rest) ≡ rest
after_int-put_int (pos n) rest = refl
after_int-put_int (negsuc n) rest = refl

read-write :
    (p : Payload) → All (λ (entry : Text × Value). IsText entry.1) p.event.row → read (write p) ≡ p
read-write p h =
    simp (take_text, drop_text, int_of-put_int, after_int-put_int, row_of-put_row p.event.row h)
      (refl)

pub lengths-IsCodec : IsCodec lengths
lengths-IsCodec = record {
  reread = λ p text h written. cc (ap (λ (t : Option Text). t) written, read-write p h);
}
