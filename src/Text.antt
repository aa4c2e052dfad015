-- ===== src/Text.antt =====
-- Text that the code walks, as its code points (`str.strip`), and the equality of whole texts.
use Prim.Native.Char.{code}
use text.Mathlib.Text.{◌==◌ as text_eq}
use balt_oil.Prelude.{
  true, false, ℕ, Bool, ◌&&◌, ◌||◌, String, List, [], ◌∷◌, leb, ◌==◌, if◌then◌else◌, any,
}
use mathlib.Core.List.{reverse}

abbrev pub Text : Type 0
Text = List ℕ

abbrev pub codes : String → Text
codes String.[] = []
codes (String.◌∷◌ c s) = code c ∷ codes s

-- Python's `==` on two texts that are only compared.
abbrev pub ◌=str◌ : String → String → Bool
◌=str◌ = text_eq

infix 50 ◌=str◌
-- `key in mapping`
abbrev pub has_key : String → List String → Bool
has_key k = any (λ j. j =str k)

-- `str.isspace` of one code point
abbrev pub is_space : ℕ → Bool
is_space c =
    (leb 9 c && leb c 13)
    || (leb 28 c && leb c 32)
    || c == 133
    || c == 160
    || c == 5760
    || (leb 8192 c && leb c 8202)
    || c == 8232
    || c == 8233
    || c == 8239
    || c == 8287
    || c == 12288

infix 50 ◌=text◌
abbrev pub ◌=text◌ : Text → Text → Bool
[] =text [] = true
[] =text (d ∷ t) = false
(c ∷ s) =text [] = false
(c ∷ s) =text (d ∷ t) = c == d && s =text t

abbrev pub lstrip : Text → Text
lstrip [] = []
lstrip (c ∷ s) = if is_space c then lstrip s else c ∷ s

abbrev pub strip : Text → Text
strip s = reverse (lstrip (reverse (lstrip s)))
