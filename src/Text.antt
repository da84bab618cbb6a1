-- ===== src/Text.antt =====
-- The methods of Python's `str` that the program calls, over code points. A native `String` is
-- the sequence of code points of a Python text.
pub mod Cut
pub mod Upper
pub mod Decimal
use Prim.Native.String.{[], ◌∷◌}
use xvector.Prelude.{
  ℕ, suc, ◌+◌, String, Char, code, Bool, true, false, ◌≡◌, ◌&&◌, ◌||◌, Option, none, some, leb,
  nat_beq, if◌then◌else◌,
}

-- len(s)
abbrev pub length : String → ℕ
length [] = 0
length (c ∷ s) = suc (length s)

-- not s
abbrev pub is_empty : String → Bool
is_empty [] = true
is_empty (c ∷ s) = false

-- str.isspace for one character
unfoldable pub is_space : Char → Bool
is_space c =
    let n = code c in
    (leb 9 n && leb n 13)
    || (leb 28 n && leb n 32)
    || nat_beq n 0x85
    || nat_beq n 0xa0
    || nat_beq n 0x1680
    || (leb 0x2000 n && leb n 0x200a)
    || nat_beq n 0x2028
    || nat_beq n 0x2029
    || nat_beq n 0x202f
    || nat_beq n 0x205f
    || nat_beq n 0x3000

unfoldable pub lstrip : String → String
lstrip [] = []
lstrip (c ∷ s) = let rest = lstrip s in if is_space c then rest else c ∷ s

unfoldable pub rstrip : String → String
rstrip [] = []
rstrip (c ∷ s) = let rest = rstrip s in if is_empty rest && is_space c then [] else c ∷ rest

-- s.strip()
unfoldable pub strip : String → String
strip s = rstrip (lstrip s)

-- the lower case of an ASCII code point
abbrev pub lower_code : ℕ → ℕ
lower_code n = if leb b'A' n && leb n b'Z' then n + 32 else n

-- s.lower() == t, where t is a lower-case ASCII text without "k" (no other character has one of
-- its letters for its lower case)
unfoldable pub equals_lower : String → String → Bool
equals_lower [] [] = true
equals_lower [] (d ∷ t) = false
equals_lower (c ∷ s) [] = false
equals_lower (c ∷ s) (d ∷ t) = nat_beq (lower_code (code c)) (code d) && equals_lower s t

abbrev pub push_first : Char → Option (String × String) → Option (String × String)
push_first c none = none
push_first c (some (u, p)) = some (c ∷ u, p)

-- s.split(sep, 1) where sep occurs: the text before the first one and the text behind it
unfoldable pub split_once : ℕ → String → Option (String × String)
split_once sep [] = none
split_once sep (c ∷ s) =
    if nat_beq (code c) sep then some ("", s) else push_first c (split_once sep s)

-- s[len(p):] if s.startswith(p)
unfoldable pub after : String → String → Option String
after [] s = some s
after (p ∷ ps) [] = none
after (p ∷ ps) (c ∷ s) = if nat_beq (code p) (code c) then after ps s else none

-- No character of the text has this code.
abbrev pub Lacks : ℕ → String → Type 0
Lacks n [] = Unit
Lacks n (c ∷ s) = (nat_beq (code c) n ≡ false) × Lacks n s
