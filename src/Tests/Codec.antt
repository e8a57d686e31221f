-- ===== src/Tests/Codec.antt =====
-- A codec of maps of documents: a document is a number of words, and a word is written with a mark
-- before each character and another at its end.
use Prim.Native.Char.{Char, code}
use text.Mathlib.TextBridge.{to_list, of_list, to_list-of_list, of_list-to_list}
use hexagonal_backend.Common.{
  ℕ, zero, suc, String, ◌≡◌, refl, sym, ap, ◌∙◌, Option, none, some, List, [], ◌∷◌, ◌==◌,
  if◌then◌else◌, arith,
}
use hexagonal_backend.Documents.{RefreshTokenDoc}

more : Char
more = "+"

stop : Char
stop = "."

write_word : List Char → List Char → List Char
unfolding more stop
write_word [] rest = stop ∷ rest
write_word (c ∷ word) rest = more ∷ c ∷ write_word word rest

write_words : List (List Char) → List Char
unfolding write_word
write_words [] = []
write_words (word ∷ words) = write_word word (write_words words)

begin_with : Char → List (List Char) → List (List Char)
begin_with c [] = (c ∷ []) ∷ []
begin_with c (word ∷ words) = (c ∷ word) ∷ words

read_words : List Char → List (List Char)
unfolding begin_with
read_words [] = []
read_words (mark ∷ []) = [] ∷ []
read_words (mark ∷ c ∷ rest) =
    let same = begin_with c (read_words rest) in
    let next = read_words (c ∷ rest) in if code mark == 43 then same else [] ∷ next

read_stop : (rest : List Char) → read_words (stop ∷ rest) ≡ [] ∷ read_words rest
unfolding read_words stop
read_stop [] = refl
read_stop (c ∷ rest) = refl

read-write_word :
    (word rest : List Char) → read_words (write_word word rest) ≡ word ∷ read_words rest
unfolding write_word read_words more begin_with
read-write_word [] rest = read_stop rest
read-write_word (c ∷ word) rest = ap (begin_with c) (read-write_word word rest)

read-write_words : (words : List (List Char)) → read_words (write_words words) ≡ words
unfolding write_words
read-write_words [] = unfold read_words in refl
read-write_words (word ∷ words) =
    read-write_word word (write_words words) ∙ ap (λ ws. word ∷ ws) (read-write_words words)

-- A number is as many marks.
marks : ℕ → List Char
unfolding more
marks zero = []
marks (suc n) = more ∷ marks n

count : List Char → ℕ
count [] = zero
count (c ∷ word) = suc (count word)

count-marks : (n : ℕ) → count (marks n) ≡ n
unfolding count marks
count-marks zero = refl
count-marks (suc n) = ap (λ m. suc m) (count-marks n)

optional_marks : Option ℕ → List Char
unfolding more marks
optional_marks none = []
optional_marks (some n) = more ∷ marks n

optional_count : List Char → Option ℕ
unfolding count
optional_count [] = none
optional_count (c ∷ word) = some (count word)

optional_count-marks : (o : Option ℕ) → optional_count (optional_marks o) ≡ o
unfolding optional_count optional_marks
optional_count-marks none = refl
optional_count-marks (some n) = ap some (count-marks n)

doc_words : List (String × RefreshTokenDoc) → List (List Char)
unfolding marks optional_marks
doc_words [] = []
doc_words ((key, d) ∷ rest) =
    to_list key
    ∷ to_list d.id
    ∷ to_list d.user_id
    ∷ to_list d.client_id
    ∷ to_list d.grant_id
    ∷ to_list d.token_hash
    ∷ to_list d.scope
    ∷ to_list d.device_id
    ∷ marks d.authenticated_at
    ∷ marks d.created_at
    ∷ marks d.expires_at
    ∷ optional_marks d.revoked_at
    ∷ doc_words rest

doc_of :
    List Char
    → List Char
    → List Char
    → List Char
    → List Char
    → List Char
    → List Char
    → List Char
    → List Char
    → List Char
    → List Char
    → RefreshTokenDoc
unfolding count optional_count
doc_of a b c d e f g h i j k = record {
  id = of_list a;
  user_id = of_list b;
  client_id = of_list c;
  grant_id = of_list d;
  token_hash = of_list e;
  scope = of_list f;
  device_id = of_list g;
  authenticated_at = count h;
  created_at = count i;
  expires_at = count j;
  revoked_at = optional_count k;
}

words_docs : List (List Char) → Option (List (String × RefreshTokenDoc))
unfolding doc_of
words_docs [] = some []
words_docs (key ∷ a ∷ b ∷ c ∷ d ∷ e ∷ f ∷ g ∷ h ∷ i ∷ j ∷ k ∷ rest) = elim (words_docs rest) [
  | none ↦ none
  | some docs ↦ some ((of_list key, doc_of a b c d e f g h i j k) ∷ docs)
]
words_docs _ = none

words_docs-doc_words :
    (docs : List (String × RefreshTokenDoc)) → words_docs (doc_words docs) ≡ some docs
unfolding words_docs doc_words doc_of
words_docs-doc_words [] = refl
words_docs-doc_words ((key, d) ∷ rest) =
    rw
      (
        words_docs-doc_words rest,
        of_list-to_list key,
        of_list-to_list d.id,
        of_list-to_list d.user_id,
        of_list-to_list d.client_id,
        of_list-to_list d.grant_id,
        of_list-to_list d.token_hash,
        of_list-to_list d.scope,
        of_list-to_list d.device_id,
        count-marks d.authenticated_at,
        count-marks d.created_at,
        count-marks d.expires_at,
        optional_count-marks d.revoked_at,
      )
      refl

unfoldable pub encode_docs : List (String × RefreshTokenDoc) → Option String
unfolding doc_words write_words
encode_docs docs = some (of_list (write_words (doc_words docs)))

unfoldable pub decode_docs : String → Option (List (String × RefreshTokenDoc))
unfolding words_docs read_words
decode_docs content = words_docs (read_words (to_list content))

pub decode-encode_docs :
    (docs : List (String × RefreshTokenDoc)) (content : String)
    → encode_docs docs ≡ some content
    → decode_docs content ≡ some docs
unfolding encode_docs decode_docs
decode-encode_docs docs content h =
    let written : of_list (write_words (doc_words docs)) ≡ content = ground (arith, h) in
    rw
      (
        sym written,
        to_list-of_list (write_words (doc_words docs)),
        read-write_words (doc_words docs),
      )
      (words_docs-doc_words docs)
