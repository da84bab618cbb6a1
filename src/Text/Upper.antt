-- ===== src/Text/Upper.antt =====
-- str.upper of Python, as far as comparisons with ASCII texts go: the codes of the text in upper
-- case. These are all characters other than ASCII letters with an upper case in ASCII.
use Prim.Native.String.{[], ◌∷◌}
use xvector.Prelude.{
  ℕ, ◌-◌, String, code, Bool, true, false, ◌&&◌, Option, none, some, ◌++◌, leb, nat_beq,
  if◌then◌else◌,
}
use xvector.Prelude.{List, [], ◌∷◌}

-- the codes of c.upper(), for the code of c
unfoldable pub upper_code : ℕ → List ℕ
upper_code n =
    if leb b'a' n && leb n b'z'
    then (n - 32) ∷ []
    else if nat_beq n 0xdf
    then b'S' ∷ b'S' ∷ []
    else if nat_beq n 0x131
    then b'I' ∷ []
    else if nat_beq n 0x17f
    then b'S' ∷ []
    else if nat_beq n 0xfb00
    then b'F' ∷ b'F' ∷ []
    else if nat_beq n 0xfb01
    then b'F' ∷ b'I' ∷ []
    else if nat_beq n 0xfb02
    then b'F' ∷ b'L' ∷ []
    else if nat_beq n 0xfb03
    then b'F' ∷ b'F' ∷ b'I' ∷ []
    else if nat_beq n 0xfb04
    then b'F' ∷ b'F' ∷ b'L' ∷ []
    else if nat_beq n 0xfb05
    then b'S' ∷ b'T' ∷ []
    else if nat_beq n 0xfb06
    then b'S' ∷ b'T' ∷ []
    else n ∷ []

-- s.upper()
unfoldable pub upper : String → List ℕ
unfolding upper_code
upper [] = []
upper (c ∷ s) = upper_code (code c) ++ upper s

abbrev pub codes : String → List ℕ
codes [] = []
codes (c ∷ s) = code c ∷ codes s

unfoldable pub same_codes : List ℕ → List ℕ → Bool
same_codes [] [] = true
same_codes (m ∷ ms) (n ∷ ns) = nat_beq m n && same_codes ms ns
same_codes _ _ = false

-- s.upper() == t
unfoldable pub equals_upper : String → String → Bool
unfolding upper same_codes
equals_upper s t = same_codes (upper s) (codes t)

-- table.get(key), for a key that is given by its codes
unfoldable pub look_up {ℓ} : {A : Type ℓ} → List ℕ → List (String × A) → Option A
unfolding same_codes
look_up key [] = none
look_up key ((k, a) ∷ table) =
    let rest = look_up key table in if same_codes key (codes k) then some a else rest
