-- ===== src/Events/Consistency.antt =====
-- What ties the three keys of a run together: the stream is numbered from 1 without a gap, the
-- counter is the number of its last row, and the output is the text of its tokens.
use smart_class_agent.Common.{
  ℕ, suc, ◌+◌, ◌≡◌, refl, none, some, List, [], ◌∷◌, ◌++◌, Text, length, arith,
}
use mathlib.Core.List.{append-nil, append_assoc}
use mathlib.Core.Path.{sym}
use smart_class_agent.Events.Store.{Redis, Entry, top, number, text_or_empty}
use smart_class_agent.Events.Transport.{token_text_of}

-- The rows are numbered `n + 1`, `n + 2` and so on.
abbrev pub NumberedAfter : ℕ → List Entry → Type 0
NumberedAfter n [] = Unit
NumberedAfter n (e ∷ es) = (e.sequence ≡ suc n) × NumberedAfter (suc n) es

-- The text that a row adds to the output.
abbrev pub row_text : Entry → Text
row_text e = elim (e.data_field) [ none ↦ [] | some payload ↦ token_text_of e.event payload ]

abbrev pub output_of : List Entry → Text
output_of [] = []
output_of (e ∷ es) = row_text e ++ output_of es

module _ (R : Redis) where
  open R use {Keys, stream, last_sequence, output}

  pub record IsConsistent (k : Keys) : Type 0 where
    pub numbered : NumberedAfter 0 (stream k)
    pub counted : number (last_sequence k) ≡ length (stream k)
    pub printed : text_or_empty (output k) ≡ output_of (stream k)

pub NumberedAfter-append :
    (n : ℕ) (es : List Entry) (e : Entry)
    → NumberedAfter n es
    → e.sequence ≡ suc (n + length es)
    → NumberedAfter n (es ++ (e ∷ []))
NumberedAfter-append n [] e h s = (omega arith, tt)
NumberedAfter-append n (x ∷ xs) e h s = (h.0, NumberedAfter-append (suc n) xs e h.1 (omega arith))

top_of_NumberedAfter :
    (n : ℕ) (e : Entry) (es : List Entry)
    → NumberedAfter n (e ∷ es)
    → top (e ∷ es) ≡ n + length (e ∷ es)
top_of_NumberedAfter n e [] h = omega arith
top_of_NumberedAfter n e (x ∷ xs) h = omega (arith, top_of_NumberedAfter (suc n) x xs h.1)

-- The number of the last row is the length of the stream.
pub top-NumberedAfter : (es : List Entry) → NumberedAfter 0 es → top es ≡ length es
top-NumberedAfter [] h = refl
top-NumberedAfter (e ∷ es) h = omega (arith, top_of_NumberedAfter 0 e es h)

pub output_of-append :
    (es : List Entry) (e : Entry) → output_of (es ++ (e ∷ [])) ≡ output_of es ++ row_text e
output_of-append [] e = append-nil (row_text e)
output_of-append (x ∷ xs) e =
    rw (output_of-append xs e) (sym (append_assoc (row_text x) (output_of xs) (row_text e)))
