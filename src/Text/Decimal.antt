-- ===== src/Text/Decimal.antt =====
-- str(n) and int(s). Digits that are not ASCII are left out.
use Prim.Native.String.{[], ◌∷◌}
use xvector.Prelude.{
  ℕ, zero, suc, ◌+◌, ◌-◌, ◌*◌, ◌/◌, ◌%◌, ◌<◌, String, Char, Bool, nat_beq, code, true, false, ◌≡◌,
  refl, ap, ◌∙◌, inl, inr, ◌&&◌, Option, none, some, leb, ltb, arith, if◌then◌else◌, Bool-cases,
}
use mathlib.Core.Option.{map}
use xvector.Prelude.Integers.{ℤ, pos, negsuc, neg_nat}
use xvector.Text.{length, is_space, lstrip, rstrip, strip}

-- the character at a place that is there
unfoldable pub char_at : ℕ → String → Char
char_at n [] = "0"
char_at zero (c ∷ s) = c
char_at (suc n) (c ∷ s) = char_at n s

unfoldable pub digit : ℕ → Char
unfolding char_at
digit n = char_at n "0123456789"

-- the digits of n in front of a text; as many rounds as n + 1 are enough
unfoldable pub digits : ℕ → ℕ → String → String
unfolding digit
digits zero n s = s
digits (suc rounds) n s =
    let more = digits rounds (n / 10) (digit (n % 10) ∷ s) in if ltb n 10 then digit n ∷ s else more

-- str(n)
unfoldable pub decimal : ℕ → String
unfolding digits
decimal n = digits (suc n) n ""

-- the number whose leading digits have this value; an underscore stands between two digits, and
-- `after` says whether a digit was last
unfoldable pub value : Bool → ℕ → String → Option ℕ
value true n [] = some n
value false n [] = none
value after n (c ∷ s) =
    let rest = value true (n * 10 + (code c - 48)) s in
    let gap = value false n s in
    if leb 48 (code c) && leb (code c) 57
    then rest
    else if after && nat_beq (code c) 95
    then gap
    else none

-- the number that a text without a sign and white space is
unfoldable pub parse_decimal : String → Option ℕ
unfolding value
parse_decimal s = value false 0 s

-- str(z)
unfoldable pub int_str : ℤ → String
unfolding decimal
int_str (pos n) = decimal n
int_str (negsuc n) = "-" ∷ decimal (suc n)

-- int(s), where the white space around s is gone
unfoldable pub parse_int : String → Option ℤ
unfolding parse_decimal
parse_int [] = none
parse_int (c ∷ s) =
    if nat_beq (code c) 45
    then map neg_nat (parse_decimal s)
    else if nat_beq (code c) 43
    then map pos (parse_decimal s)
    else map pos (parse_decimal (c ∷ s))

-- the codes of the text count up from n
abbrev Ascends : ℕ → String → Type 0
Ascends n [] = Unit
Ascends n (c ∷ s) = (code c ≡ n) × Ascends (suc n) s

char_at-code : (d n : ℕ) (s : String) → Ascends n s → d < length s → code (char_at d s) ≡ n + d
unfolding char_at
char_at-code d n [] a h = absurd (omega arith)
char_at-code zero n (c ∷ s) (here, a) h = here ∙ omega arith
char_at-code (suc d) n (c ∷ s) (here, a) h = char_at-code d (suc n) s a (omega arith) ∙ omega arith

digit-code : (d : ℕ) → d < 10 → code (digit d) ≡ 48 + d
unfolding digit
digit-code d h =
    char_at-code d 48 "0123456789"
      (refl, (refl, (refl, (refl, (refl, (refl, (refl, (refl, (refl, (refl, tt)))))))))) h

digit-value :
    (b : Bool) (d n : ℕ) (s : String) → d < 10 → value b n (digit d ∷ s) ≡ value true (n * 10 + d) s
unfolding value
digit-value b d n s h =
    let here : code (digit d) ≡ 48 + d = digit-code d h in
    let low : leb 48 (code (digit d)) ≡ true = ground (arith, here) in
    let high : leb (code (digit d)) 57 ≡ true = ground (arith, here) in
    let worth : n * 10 + (code (digit d) - 48) ≡ n * 10 + d = ground (arith, here) in
    rw (low, high, worth) refl

value-digits :
    (b : Bool) (rounds n : ℕ) (s : String)
    → n < rounds
    → value b 0 (digits rounds n s) ≡ value true n s
unfolding digits
value-digits b zero n s h = absurd (omega arith)
value-digits b (suc rounds) n s h = elim (Bool-cases (ltb n 10)) [
  | inl small ↦
      rw small (digit-value b n 0 s (ground arith) ∙ ap (λ m. value true m s) (omega arith))
  | inr big ↦ rw big (
      value-digits b rounds (n / 10) (digit (n % 10) ∷ s) (ground arith)
      ∙ digit-value true (n % 10) (n / 10) s (omega arith)
      ∙ ap (λ m. value true m s) (omega arith))
]

parse_decimal-decimal : (n : ℕ) → parse_decimal (decimal n) ≡ some n
unfolding parse_decimal decimal value
parse_decimal-decimal n = value-digits false (suc n) n "" (omega arith)

-- what is read as a number without a sign has none
parse_int-plain : (s : String) (n : ℕ) → parse_decimal s ≡ some n → parse_int s ≡ some (pos n)
unfolding parse_int parse_decimal value
parse_int-plain [] n h = cc
parse_int-plain (c ∷ s) n h =
    let low : leb 48 (code c) ≡ true = elim (Bool-cases (leb 48 (code c))) [
      | inl low ↦ low
      | inr high ↦ let k = rw high at h in cc
    ] in
    let no_minus : nat_beq (code c) 45 ≡ false = ground (arith, low) in
    let no_plus : nat_beq (code c) 43 ≡ false = ground (arith, low) in
    rw (no_minus, no_plus) (ap (map pos) h)

pub parse_int-int_str : (z : ℤ) → parse_int (int_str z) ≡ some z
unfolding int_str parse_int
parse_int-int_str (pos n) = parse_int-plain (decimal n) n (parse_decimal-decimal n)
parse_int-int_str (negsuc n) = ap (map neg_nat) (parse_decimal-decimal (suc n))

-- no character is white space
abbrev Solid : String → Type 0
Solid [] = Unit
Solid (c ∷ s) = (is_space c ≡ false) × Solid s

digit-solid : (d : ℕ) → d < 10 → is_space (digit d) ≡ false
unfolding is_space
digit-solid d h = let here = digit-code d h in ground (arith, here)

digits-Solid : (rounds n : ℕ) (s : String) → Solid s → Solid (digits rounds n s)
unfolding digits
digits-Solid zero n s h = h
digits-Solid (suc rounds) n s h = elim (Bool-cases (ltb n 10)) [
  | inl small ↦ rw small (digit-solid n (ground arith), h)
  | inr big ↦
      rw big
        (digits-Solid rounds (n / 10) (digit (n % 10) ∷ s) (digit-solid (n % 10) (omega arith), h))
]

rstrip-Solid : (s : String) → Solid s → rstrip s ≡ s
unfolding rstrip
rstrip-Solid [] h = refl
rstrip-Solid (c ∷ s) (solid, h) = rw (rstrip-Solid s h, solid) (ground arith)

strip-Solid : (s : String) → Solid s → strip s ≡ s
unfolding strip lstrip rstrip
strip-Solid [] h = refl
strip-Solid (c ∷ s) (solid, h) = rw solid (rstrip-Solid (c ∷ s) (solid, h))

decimal-Solid : (n : ℕ) → Solid (decimal n)
unfolding decimal
decimal-Solid n = digits-Solid (suc n) n "" tt

pub strip-int_str : (z : ℤ) → strip (int_str z) ≡ int_str z
unfolding int_str is_space
strip-int_str (pos n) = strip-Solid (decimal n) (decimal-Solid n)
strip-int_str (negsuc n) = strip-Solid ("-" ∷ decimal (suc n)) (refl, decimal-Solid (suc n))
