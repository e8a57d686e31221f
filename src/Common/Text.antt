-- ===== src/Common/Text.antt =====
-- Tests on texts: equality, emptiness, and the shape of formatted keys.
use Prim.Native.Char.{Char, code}
use Prim.Native.String.{String, ◌++◌, ◌∷◌}
use mathlib.Core.Path.{◌≡◌, sym, ap, ◌∙◌}
use mathlib.Core.Logic.{◌≢◌}
use mathlib.Core.Bool.{Bool, true, false, ◌&&◌, ◌||◌}
use native.Mathlib.Omega.{arith}
use hexagonal_backend.Common.Tests.{◌==◌, leb}
use text.Mathlib.Text.{◌==◌ as same_text}
use text.Mathlib.TextEquality.{eq_iff}
use text.Mathlib.TextLemmas.{append_cancel_left, head-eq_of_cons-eq, cons-append}
use text.Mathlib.TextPositions.{eq_refl}

abbrev pub str_eq : String → String → Bool
str_eq s t = same_text s t

abbrev pub is_empty : String → Bool
is_empty s = same_text s ""

pub str_eq_refl : (s : String) → str_eq s s ≡ true
str_eq_refl s = eq_refl s

pub str_eq→eq : (s t : String) → str_eq s t ≡ true → s ≡ t
str_eq→eq s t h = (eq_iff s t).0 h

pub str_eq_of_ne : (s t : String) → s ≢ t → str_eq s t ≡ false
str_eq_of_ne s t h = ground (arith, eq_iff s t)

-- fmt.Sprintf("prefix%s", s)
abbrev pub with_prefix : String → String → String
with_prefix p s = p ++ s

pub with_prefix_inj : (p s t : String) → with_prefix p s ≡ with_prefix p t → s ≡ t
with_prefix_inj p s t e = append_cancel_left p s t e

-- Two texts with different first characters differ, whatever follows.
pub prefixes_differ :
    (c d : Char) (p q s t : String) → code c ≢ code d → (c ∷ p) ++ s ≢ (d ∷ q) ++ t
prefixes_differ c d p q s t h e =
    h (ap code (head-eq_of_cons-eq (sym (cons-append c p s) ∙ e ∙ cons-append d q t)))

-- unicode.IsSpace
unfoldable pub is_space : Char → Bool
is_space c =
    let n = code c in
    (leb 9 n && leb n 13)
    || (n == 32)
    || (n == 133)
    || (n == 160)
    || (n == 5760)
    || (leb 8192 n && leb n 8202)
    || (n == 8232)
    || (n == 8233)
    || (n == 8239)
    || (n == 8287)
    || (n == 12288)
