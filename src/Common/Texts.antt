-- ===== src/Common/Texts.antt =====
-- Texts. A text that the program takes apart or joins is the list of its code points; one that it
-- only compares (an identifier, a key) is a native string.
use Prim.Native.Nat.{ℕ}
use mathlib.Core.List.{List, [], ◌∷◌, ◌++◌}
pub use text.Mathlib.Text.{◌==◌ as str_eq}

abbrev pub Text : Type 0
Text = List ℕ

-- `"".join(parts)`
abbrev pub join : List Text → Text
join [] = []
join (t ∷ ts) = t ++ join ts
