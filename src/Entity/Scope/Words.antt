-- ===== src/Entity/Scope/Words.antt =====
-- Splitting a joined scope gives its words back.
use mathlib.Core.Path.{subst}
use Prim.Native.Char.{Char}
use Prim.Native.String.{◌++◌}
use text.Mathlib.TextLemmas.{nil-append, cons-append, append-nil, append_assoc}
use hexagonal_backend.Common.{
  ◌≡◌, refl, sym, ap, ◌∙◌, String, Bool, true, false, ◌&&◌, not, List, [], ◌∷◌, contains,
  Bool-cases, arith, inl, inr,
}
use hexagonal_backend.Common.Text.{str_eq, is_empty, is_space, str_eq→eq}
use hexagonal_backend.Entity.Scope.{
  flush, fields_from, fields, join, all_supported, supported_scopes,
}

pub no_space : String → Bool
unfolding is_space
no_space String.[] = true
no_space (String.◌∷◌ c s) = not (is_space c) && no_space s

-- The characters of a word are gathered.
fields_from-append :
    (word p s : String) → no_space p ≡ true → fields_from word (p ++ s) ≡ fields_from (word ++ p) s
unfolding fields_from no_space
fields_from-append word String.[] s h = rw (nil-append s, append-nil word) refl
fields_from-append word (String.◌∷◌ c p) s h =
    let plain : is_space c ≡ false = ground (arith, h) in
    let whole : (word ++ String.◌∷◌ c String.[]) ++ p ≡ word ++ String.◌∷◌ c p =
      append_assoc word (String.◌∷◌ c String.[]) p
      ∙ ap (λ t. word ++ t) (cons-append c String.[] p ∙ ap (λ t. String.◌∷◌ c t) (nil-append p)) in
    rw (cons-append c p s, plain)
      (fields_from-append (word ++ String.◌∷◌ c String.[]) p s (ground (arith, h))
        ∙ ap (λ w. fields_from w s) whole)

abbrev space : Char
space = " "

space-append : (s : String) → " " ++ s ≡ String.◌∷◌ space s
space-append s = cons-append space String.[] s ∙ ap (λ t. String.◌∷◌ space t) (nil-append s)

-- Words that are not empty and hold no space.
abbrev pub AreWords : List String → Type 0
AreWords [] = Unit {0}
AreWords (w ∷ rest) = (is_empty w ≡ false) × (no_space w ≡ true) × AreWords rest

-- strings.Fields gives back the words that strings.Join was given.
pub fields-join : (words : List String) → AreWords words → fields (join words) ≡ words
unfolding fields join fields_from flush
fields-join [] h = refl
fields-join (w ∷ []) h =
    sym (ap (fields_from "") (append-nil w))
    ∙ fields_from-append "" w "" h.1
    ∙ rw (nil-append w, h.0) refl
fields-join (w ∷ v ∷ rest) h =
    fields_from-append "" w (" " ++ join (v ∷ rest)) h.1
    ∙ rw (nil-append w, space-append (join (v ∷ rest)), h.0)
        (ap (λ ws. w ∷ ws) (fields-join (v ∷ rest) h.2))

IsWord : String → Type 0
IsWord w = (is_empty w ≡ false) × (no_space w ≡ true)

supported-IsWord : (w : String) → contains supported_scopes w ≡ true → IsWord w
unfolding contains no_space IsWord
supported-IsWord w h = elim (Bool-cases (str_eq "openid" w)) [
  | inl e ↦ subst IsWord (str_eq→eq "openid" w e) (refl, refl)
  | inr a ↦ elim (Bool-cases (str_eq "email" w)) [
    | inl e ↦ subst IsWord (str_eq→eq "email" w e) (refl, refl)
    | inr b ↦ elim (Bool-cases (str_eq "profile" w)) [
      | inl e ↦ subst IsWord (str_eq→eq "profile" w e) (refl, refl)
      | inr c ↦ elim (Bool-cases (str_eq "phone" w)) [
        | inl e ↦ subst IsWord (str_eq→eq "phone" w e) (refl, refl)
        | inr d ↦ absurd (ground (arith, h, a, b, c, d))
      ]
    ]
  ]
]

pub supported-AreWords : (words : List String) → all_supported words ≡ true → AreWords words
unfolding all_supported IsWord
supported-AreWords [] h = tt
supported-AreWords (w ∷ rest) h =
    let word : IsWord w = supported-IsWord w (ground (arith, h)) in
    (word.0, word.1, supported-AreWords rest (ground (arith, h)))
