-- ===== src/Prelude/Texts.antt =====
-- What the program uses of Python's `str`.
use Prim.Native.Nat.{ℕ}
use Prim.Native.Char.{code}
use Prim.Native.String.{String}
use mathlib.Core.Bool.{Bool, true, false, not, ◌&&◌, ◌||◌}
use mathlib.Core.List.{List, [], ◌∷◌}
use text.Mathlib.Text.{◌==◌ as text_eq}
use mega_basterd_cli.Prelude.Tests.{leb, if◌then◌else◌, ◌==◌}

-- `a == b` on texts.
abbrev pub str_eq : String → String → Bool
str_eq a b = text_eq a b

-- The code points of a text.
abbrev pub codes : String → List ℕ
codes String.[] = []
codes (String.◌∷◌ c s) = code c ∷ codes s

-- `str.isspace` of one character, which `str.strip` removes.
abbrev pub is_space : ℕ → Bool
is_space c =
    (leb 9 c && leb c 13)
    || (leb 28 c && leb c 32)
    || c == 133
    || c == 160
    || c == 5760
    || (leb 8192 c && leb c 8202)
    || c == 8232
    || c == 8233
    || c == 8239
    || c == 8287
    || c == 12288

abbrev pub all_space : List ℕ → Bool
all_space [] = true
all_space (c ∷ cs) = is_space c && all_space cs

-- `not s.strip()`
abbrev pub is_blank : String → Bool
is_blank s = all_space (codes s)

-- `bool(s)`
abbrev pub is_truthy : String → Bool
is_truthy s = not (str_eq s "")

-- `x in {a, b, ...}` for a text
abbrev pub one_of : String → List String → Bool
one_of s [] = false
one_of s (t ∷ ts) = if str_eq s t then true else one_of s ts
