-- ===== src/Paths/Names.antt =====
-- Which names `validate_name` of xvector/common/paths.py accepts.
use Prim.Native.Char.{char}
use Prim.Native.String.{[], ◌∷◌, ◌++◌}
use text.Mathlib.TextEquality.{Char-path}
use text.Mathlib.TextLemmas.{nil-append, cons-append}
use xvector.Prelude.{
  ℕ, zero, suc, ◌≤◌, String, Char, ◌≡◌, refl, sym, ap, ◌∙◌, ◌≢◌, ◌↔◌, ◌⊎◌, inl, inr, true, false,
  ◌&&◌, Option, none, some, arith, eq_iff, ◌==◌, Bool-cases,
}
use xvector.Errors.{ok}
use xvector.Text.{length, is_empty}
use xvector.Text.Cut.{nat_beq→eq}
use xvector.Paths.{
  meta_name, default_partition, is_name_start, is_name_char, at_dollar, match_tail, match_name,
  validate_name,
}

abbrev pub newline : Char
newline = char 10 tt

abbrev pub IsWord : String → Type 0
IsWord [] = Unit
IsWord (c ∷ s) = (is_name_char c ≡ true) × IsWord s

-- One to 255 letters, digits and underscores, the first of them no digit.
abbrev pub IsName : String → Type 0
IsName [] = ⊥
IsName (c ∷ s) = (is_name_start c ≡ true) × IsWord s × (length s ≤ 254)

abbrev FitsTail : ℕ → String → Type 0
FitsTail n s =
    (IsWord s × (length s ≤ n))
    ⊎ ((t : String) × (s ≡ t ++ newline ∷ []) × IsWord t × (length t ≤ n))

at_dollar-eq-true : (c : Char) (s : String) → at_dollar (c ∷ s) ≡ true → c ∷ s ≡ newline ∷ []
unfolding at_dollar
at_dollar-eq-true c [] h = ap (λ d. d ∷ []) (Char-path c newline (nat_beq→eq _ _ h))
at_dollar-eq-true c (d ∷ s) h = cc

FitsTail-cons :
    {n : ℕ} {s : String} (c : Char)
    → is_name_char c ≡ true
    → FitsTail n s
    → FitsTail (suc n) (c ∷ s)
FitsTail-cons c h (inl (w, l)) = inl ((h, w), omega arith)
FitsTail-cons c h (inr (t, e, w, l)) =
    inr (c ∷ t, ap (λ x. c ∷ x) e ∙ sym (cons-append _ _ _), (h, w), omega arith)

match_tail_sound : (n : ℕ) (s : String) → match_tail n s ≡ true → FitsTail n s
unfolding match_tail
match_tail_sound zero [] h = inl (tt, omega arith)
match_tail_sound (suc n) [] h = inl (tt, omega arith)
match_tail_sound zero (c ∷ s) h =
    inr ("", at_dollar-eq-true c s h ∙ sym (nil-append _), tt, omega arith)
match_tail_sound (suc n) (c ∷ s) h = elim (Bool-cases (is_name_char c)) [
  | inl word ↦ FitsTail-cons c word (match_tail_sound n s (rw word at h))
  | inr other ↦
      inr ("", at_dollar-eq-true c s (rw other at h) ∙ sym (nil-append _), tt, omega arith)
]

match_tail_word : (n : ℕ) (t : String) → IsWord t → length t ≤ n → match_tail n t ≡ true
unfolding match_tail
match_tail_word zero [] w l = refl
match_tail_word (suc n) [] w l = refl
match_tail_word zero (c ∷ t) w l = absurd (omega arith)
match_tail_word (suc n) (c ∷ t) (h, w) l = rw h (match_tail_word n t w (omega arith))

match_tail-newline :
    (n : ℕ) (t : String) → IsWord t → length t ≤ n → match_tail n (t ++ newline ∷ []) ≡ true
unfolding match_tail
match_tail-newline zero [] w l = refl
match_tail-newline (suc n) [] w l = refl
match_tail-newline zero (c ∷ t) w l = absurd (omega arith)
match_tail-newline (suc n) (c ∷ t) (h, w) l =
    rw (cons-append, h) (match_tail-newline n t w (omega arith))

-- the names that the pattern matches
abbrev pub IsAccepted : String → Type 0
IsAccepted name = IsName name ⊎ ((t : String) × (name ≡ t ++ newline ∷ []) × IsName t)

match_name_sound : (name : String) → match_name name ≡ true → IsAccepted name
unfolding match_name
match_name_sound [] h = cc
match_name_sound (c ∷ s) h = elim (Bool-cases (is_name_start c)) [
  | inl start ↦ elim (match_tail_sound 254 s (rw start at h)) [
    | inl (w, l) ↦ inl (start, w, l)
    | inr (t, e, w, l) ↦ inr (c ∷ t, ap (λ x. c ∷ x) e ∙ sym (cons-append _ _ _), (start, w, l))
  ]
  | inr other ↦ cc (rw other at h)
]

match_name_complete : (name : String) → IsAccepted name → match_name name ≡ true
unfolding match_name
match_name_complete [] (inl h) = absurd h
match_name_complete (c ∷ s) (inl (h, w, l)) = rw h (match_tail_word 254 s w l)
match_name_complete name (inr ([], e, h)) = absurd h
match_name_complete name (inr (c ∷ t, e, (h, w, l))) =
    rw (e, cons-append, h) (match_tail-newline 254 t w l)

match_name-empty : (name : String) → is_empty name ≡ true → match_name name ≡ false
unfolding match_name
match_name-empty [] h = refl
match_name-empty (c ∷ s) h = cc

match_name_default : match_name default_partition ≡ true
unfolding match_name
match_name_default = refl

-- The kind only lets through what the pattern matches anyway.
match_name-kind :
    (name kind : String)
    → (kind == "partition" && name == default_partition) ≡ true
    → match_name name ≡ true
match_name-kind name kind h =
    let e : name ≡ default_partition = ground (arith, eq_iff name default_partition) in
    rw e match_name_default

validate_name-test :
    (name kind : String)
    → (validate_name (some name) kind ≡ ok name)
      ↔ (((name == meta_name) ≡ false) × (match_name name ≡ true))
unfolding validate_name
validate_name-test name kind = ground (arith, match_name-empty name, match_name-kind name kind)

-- A name is accepted, and returned as it is, exactly when it is not the reserved one and is a
-- name of 1 to 255 letters, digits and underscores that starts with no digit, or such a name
-- followed by one newline. The kind makes no difference.
pub validate_name_iff :
    (name kind : String)
    → (validate_name (some name) kind ≡ ok name) ↔ ((name ≢ meta_name) × IsAccepted name)
validate_name_iff name kind = (
  λ h.
      let (free, matched) = (validate_name-test name kind).0 h in
      (ground (arith, eq_iff name meta_name), match_name_sound name matched),
  λ h.
      (validate_name-test name kind).1
        (ground (arith, eq_iff name meta_name), match_name_complete name h.1),
)

-- An accepted name is returned unchanged, and an absent or empty one is refused.
pub validate_name-eq-ok :
    (name : Option String) (kind : String) {r : String}
    → validate_name name kind ≡ ok r
    → name ≡ some r
unfolding validate_name
validate_name-eq-ok none kind h = cc
validate_name-eq-ok (some n) kind h = ground arith
