-- ===== src/Examples/Rows.antt =====
-- Rows whose ids and scores are natural numbers, and the ids of documents.
use xvector.Prelude.{
  ℕ, String, ◌≡◌, refl, inl, inr, true, Bool-cases, List, [], ◌∷◌, arith, ◌+◌, ◌*◌, ◌/◌, nat_beq,
  leb,
}
use xvector.Errors.{ok}
use xvector.Text.Decimal.{decimal, digits, digit, char_at, value, parse_decimal, parse_int, int_str}
use xvector.Text.{strip, lstrip, rstrip, is_space}
use xvector.Json.Reads.{int_of}
use xvector.Json.{Json, str}
use xvector.Pk.Ids.{to_internal_id, int_text, StandsFor, to_internal_id-StandsFor}
use xvector.Services.Vector.Ranking.{Values, IsOrdered, Row, top}
use xvector.Services.Vector.Ranking.Top.{IsTop, top-IsTop}
use xvector.Services.Vector.Fusion.{rrf, fuse}
use xvector.Services.Vector.Fusion.Tallied.{votes_of}
use xvector.Services.Vector.Fusion.Fused.{IsFused, fuse-IsFused}

abbrev numbers : Values ℕ
numbers = record {
  same = nat_beq;
  le = leb;
  nought = 0;
  add = ◌+◌;
  mul = ◌*◌;
  div = ◌/◌;
  abs = λ n. n;
  of_nat = λ n. n;
}

numbers-IsOrdered : IsOrdered numbers
numbers-IsOrdered = record {
  same_iff = λ a b. (λ h. ground arith, λ e. ground arith);
  le_total = λ a b. elim (Bool-cases (leb a b)) [ inl h ↦ inl h | inr h ↦ inr (ground arith) ];
  le_trans = λ a b c h k. ground arith;
}

abbrev row : ℕ → ℕ → Row ℕ
row id score = ("id", id) ∷ ("score", score) ∷ []

-- the rows of two partitions, with the id 1 in both
abbrev merged : List (Row ℕ)
merged = row 1 30 ∷ row 2 10 ∷ row 1 20 ∷ row 3 25 ∷ []

top-IsTop_example : IsTop numbers true 2 merged (top numbers true 2 merged)
top-IsTop_example = top-IsTop numbers true numbers-IsOrdered 2 merged

fuse-IsFused_example :
    IsFused numbers
      (votes_of numbers (rrf 60) (merged ∷ merged ∷ []))
      (fuse numbers (rrf 60) (merged ∷ merged ∷ []))
fuse-IsFused_example = fuse-IsFused numbers numbers-IsOrdered (rrf 60) (merged ∷ merged ∷ [])

abbrev no_text : Json → String
no_text v = ""

minus_forty_two : to_internal_id no_text (str " -4_2") "Int64" ≡ ok "-42"
unfolding to_internal_id int_text int_of parse_int parse_decimal value strip lstrip rstrip is_space
    int_str decimal digits digit char_at
minus_forty_two = refl

to_internal_id-StandsFor_example : StandsFor no_text "-42" "Int64"
to_internal_id-StandsFor_example =
    to_internal_id-StandsFor no_text (str " -4_2") "-42" "Int64" minus_forty_two
