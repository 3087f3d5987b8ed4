-- ===== src/EsSync/Tests/Mock.antt =====
-- An index of documents that keeps what is put into it.
use comment_project.Common.{ℕ, ◌+◌, refl, Bool, true, Option, none, some, if◌then◌else◌, arith}
use comment_project.Common.Text.{format_int}
use comment_project.EsSync.Row.{
  Value, null, string, float, Field, nil, integer, words, Doc, Target, to_int64,
}
use comment_project.EsSync.Index.{target_beq, accepts, Elastic, IsElastic}

abbrev Store : Type 0
Store = Target → Option (ℕ × Doc)

abbrev doc_part : Option (ℕ × Doc) → Option Doc
doc_part none = none
doc_part (some (x, d)) = some d

abbrev version_part : Option (ℕ × Doc) → Option ℕ
version_part none = none
version_part (some (x, d)) = some x

abbrev set : Store → Target → ℕ → Doc → Store
set s t x d u = if target_beq t u then some (x, d) else s u

abbrev next_version : Option ℕ → ℕ
next_version none = 1
next_version (some x) = x + 1

abbrev put_doc : Store → Target → Option ℕ → Doc → Bool × Store
put_doc s t none d = (true, set s t (next_version (version_part (s t))) d)
put_doc s t (some x) d =
    let accepted = accepts (version_part (s t)) x in (accepted, if accepted then set s t x d else s)

abbrev decoded : Field → Value
decoded nil = null
decoded (integer z) = float z (format_int z)
decoded (words w) = string w

abbrev pub mock : Elastic
mock = record {
  State = Store;
  source = λ s t. doc_part (s t);
  version = λ s t. version_part (s t);
  index = put_doc;
  reread = decoded;
}

pub mock-IsElastic : IsElastic mock
unfolding to_int64
mock-IsElastic = record {
  stored_if_accepted = λ s t v d. refl;
  source-index = λ s t u v d. ground arith;
  version-index = λ s t u v d. ground arith;
  reread_words = λ w. refl;
  reread_integer = λ n h. refl;
}
