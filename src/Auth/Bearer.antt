-- ===== src/Auth/Bearer.antt =====
-- What `parse_bearer` (xvector/auth/gateway_auth.py) reads from an Authorization header.
use Prim.Native.Char.{char}
use Prim.Native.String.{[], ◌∷◌, ◌++◌, ◌++◌ as append}
use text.Mathlib.TextLemmas.{nil-append, cons-append, append_assoc}
use xvector.Prelude.{
  String, Char, code, ◌≡◌, refl, sym, ap, ◌∙◌, ◌⊎◌, inl, inr, false, ◌&&◌, Option, none, some,
  arith, nat_beq, if◌then◌else◌, Bool-cases,
}
use xvector.Text.{
  is_empty, is_space, lstrip, rstrip, strip, equals_lower, push_first, split_once, Lacks,
}
use xvector.Text.Cut.{split_once-append}
use xvector.Auth.{parse_parts, parse_bearer}

-- The text does not begin with white space.
abbrev pub NoLead : String → Type 0
NoLead [] = Unit
NoLead (c ∷ s) = is_space c ≡ false

-- The text does not end in white space.
abbrev pub NoTrail : String → Type 0
NoTrail [] = Unit
NoTrail (c ∷ []) = is_space c ≡ false
NoTrail (c ∷ d ∷ s) = NoTrail (d ∷ s)

lstrip_of_NoLead : (s : String) → NoLead s → lstrip s ≡ s
unfolding lstrip
lstrip_of_NoLead [] h = refl
lstrip_of_NoLead (c ∷ s) h = rw h

rstrip_step : Char → String → String
rstrip_step c rest = if is_empty rest && is_space c then [] else c ∷ rest

rstrip-cons : (c : Char) (s : String) → rstrip (c ∷ s) ≡ rstrip_step c (rstrip s)
unfolding rstrip rstrip_step
rstrip-cons c s = refl

rstrip_of_NoTrail : (s : String) → NoTrail s → rstrip s ≡ s
unfolding rstrip_step
rstrip_of_NoTrail [] h = unfold rstrip in refl
rstrip_of_NoTrail (c ∷ []) h = rw rstrip-cons (unfold rstrip in rw h)
rstrip_of_NoTrail (c ∷ d ∷ s) h = rw (rstrip-cons c (d ∷ s), rstrip_of_NoTrail (d ∷ s) h)

NoLead-append : (u p : String) → NoLead u → NoLead (u ++ ":" ++ p)
NoLead-append [] p h = rw (nil-append, cons-append) (unfold is_space in refl)
NoLead-append (c ∷ u) p h = rw cons-append h

NoTrail-cons : (c : Char) (s : String) → NoTrail s → is_empty s ≡ false → NoTrail (c ∷ s)
NoTrail-cons c [] h e = cc
NoTrail-cons c (d ∷ s) h e = h

is_empty-append : (u p : String) → is_empty (u ++ ":" ++ p) ≡ false
is_empty-append [] p = rw (nil-append, cons-append)
is_empty-append (c ∷ u) p = rw cons-append

colon_first : (p : String) → NoTrail p → NoTrail (":" ++ p)
colon_first [] h = unfold is_space in refl
colon_first (c ∷ p) h = rw (cons-append, nil-append) h

NoTrail-append : (u p : String) → NoTrail p → NoTrail (u ++ ":" ++ p)
NoTrail-append [] p h = rw nil-append (colon_first p h)
NoTrail-append (c ∷ u) p h =
    rw cons-append (NoTrail-cons c (u ++ ":" ++ p) (NoTrail-append u p h) (is_empty-append u p))

one_char : (c : Char) (s : String) → (c ∷ []) ++ s ≡ c ∷ s
one_char c s = cons-append c [] s ∙ ap (λ r. c ∷ r) (nil-append s)

strip_both : (s : String) → NoLead s → NoTrail s → strip s ≡ s
unfolding strip
strip_both s h k = rw (lstrip_of_NoLead s h) (rstrip_of_NoTrail s k)

parse_bearer_parts :
    (a : String) → is_empty a ≡ false → parse_bearer (some a) ≡ parse_parts (split_once b' ' a)
unfolding parse_bearer
parse_bearer_parts a h = rw h

bearer_scheme :
    (token : String) → parse_parts (some ("Bearer", token)) ≡ split_once b':' (strip token)
unfolding parse_parts equals_lower
bearer_scheme token = refl

-- A header that carries a user name without ":" and a password comes apart into these two, also
-- where the password has a ":", as long as the name does not begin and the password does not end
-- with white space.
pub parse_bearer_roundtrip :
    (username password : String)
    → Lacks b':' username
    → NoLead username
    → NoTrail password
    → parse_bearer (some ("Bearer " ++ username ++ ":" ++ password)) ≡ some (username, password)
parse_bearer_roundtrip username password h k l =
    let token = username ++ ":" ++ password in
    let header : "Bearer " ++ token ≡ "Bearer" ++ char 32 tt ∷ token =
      append_assoc "Bearer" " " token ∙ ap (append "Bearer") (one_char (char 32 tt) token) in
    parse_bearer_parts ("Bearer " ++ token) (rw (header, cons-append))
    ∙ ap parse_parts (
        ap (split_once 32) header
        ∙ split_once-append 32 "Bearer" (char 32 tt) token (ground arith) refl)
    ∙ bearer_scheme token
    ∙ ap (split_once 58) (
        strip_both token (NoLead-append username password k) (NoTrail-append username password l)
        ∙ ap (append username) (one_char (char 58 tt) password))
    ∙ split_once-append 58 username (char 58 tt) password h refl

abbrev space : Char
space = char 32 tt

rstrip_trailing : (s : String) → rstrip (s ++ " ") ≡ rstrip s
rstrip_trailing [] = unfold rstrip is_space in refl
rstrip_trailing (c ∷ s) =
    ap rstrip (cons-append c s " ")
    ∙ rstrip-cons c (s ++ " ")
    ∙ ap (rstrip_step c) (rstrip_trailing s)
    ∙ sym (rstrip-cons c s)

lstrip_trailing :
    (s : String) → (lstrip (s ++ " ") ≡ lstrip s ++ " ") ⊎ (lstrip (s ++ " ") ≡ lstrip s)
unfolding lstrip
lstrip_trailing [] = inr (unfold is_space in refl)
lstrip_trailing (c ∷ s) = elim (Bool-cases (is_space c)) [
  | inl blank ↦ rw (cons-append, blank) (lstrip_trailing s)
  | inr other ↦ inl (rw (cons-append, other) (sym (cons-append c s " ")))
]

strip_trailing : (s : String) → strip (s ++ " ") ≡ strip s
unfolding strip
strip_trailing s = elim (lstrip_trailing s) [
  | inl kept ↦ rw kept (rstrip_trailing (lstrip s))
  | inr gone ↦ rw gone
]

-- what a space behind a text adds to `split(" ", 1)`
abbrev with_trailing : String → Option (String × String) → Option (String × String)
with_trailing s none = some (s, "")
with_trailing s (some (u, r)) = some (u, r ++ " ")

push_first-with_trailing :
    (c : Char) (s : String) (o : Option (String × String))
    → push_first c (with_trailing s o) ≡ with_trailing (c ∷ s) (push_first c o)
push_first-with_trailing c s none = refl
push_first-with_trailing c s (some (u, r)) = refl

split_once_trailing :
    (s : String) → split_once b' ' (s ++ " ") ≡ with_trailing s (split_once b' ' s)
unfolding split_once
split_once_trailing [] = refl
split_once_trailing (c ∷ s) = elim (Bool-cases (nat_beq (code c) b' ')) [
  | inl here ↦ rw (cons-append, here)
  | inr later ↦
      rw (cons-append, later, split_once_trailing s)
        (push_first-with_trailing c s (split_once b' ' s))
]

no_token : split_once b':' (strip "") ≡ none
unfolding strip lstrip rstrip split_once
no_token = refl

parse_parts_trailing :
    (s : String) (o : Option (String × String)) → parse_parts (with_trailing s o) ≡ parse_parts o
unfolding parse_parts
parse_parts_trailing s none = ground (arith, no_token)
parse_parts_trailing s (some (u, r)) = rw (strip_trailing r)

-- A space behind a header changes nothing that is read from it.
parse_bearer_trailing :
    (authorization : String)
    → parse_bearer (some (authorization ++ " ")) ≡ parse_bearer (some authorization)
parse_bearer_trailing [] = unfold parse_bearer parse_parts split_once equals_lower in refl
parse_bearer_trailing (c ∷ s) =
    parse_bearer_parts (c ∷ s ++ " ") (rw cons-append)
    ∙ ap parse_parts (split_once_trailing (c ∷ s))
    ∙ parse_parts_trailing (c ∷ s) (split_once b' ' (c ∷ s))
    ∙ sym (parse_bearer_parts (c ∷ s) refl)
