-- ===== src/Text/Cut.antt =====
-- Cutting a text at a prefix or at a separator puts it together again.
use Prim.Native.String.{[], ◌∷◌, ◌++◌}
use text.Mathlib.TextEquality.{Char-path}
use text.Mathlib.TextLemmas.{nil-append, cons-append}
use xvector.Prelude.{
  ℕ, String, Char, code, ◌≡◌, sym, ap, ◌∙◌, true, Option, none, some, inl, inr, arith, nat_beq,
  Bool-cases,
}
use xvector.Text.{push_first, split_once, after, Lacks}

pub nat_beq→eq : (a b : ℕ) → nat_beq a b ≡ true → a ≡ b
nat_beq→eq a b h = ground arith

pub nat_beq_self : (a : ℕ) → nat_beq a a ≡ true
nat_beq_self a = ground arith

-- A text that starts with a prefix is the prefix and the rest.
pub after-eq-some : (p s : String) {r : String} → after p s ≡ some r → s ≡ p ++ r
unfolding after
after-eq-some [] s h = rw nil-append (ground arith)
after-eq-some (p ∷ ps) [] h = ground arith
after-eq-some (p ∷ ps) (c ∷ s) {r} h = elim (Bool-cases (nat_beq (code p) (code c))) [
  | inl same ↦
      let ih = after-eq-some ps s (rw same at h) in
      rw (cons-append, Char-path p c (nat_beq→eq _ _ same)) (ap (λ t. c ∷ t) ih)
  | inr other ↦ ground arith
]

pub after-append : (p r : String) → after p (p ++ r) ≡ some r
unfolding after
after-append [] r = rw nil-append
after-append (p ∷ ps) r = rw (cons-append, nat_beq_self (code p)) (after-append ps r)

push_first-eq-some :
    (c : Char) (o : Option (String × String)) {u p : String}
    → push_first c o ≡ some (u, p)
    → (v : String) × (o ≡ some (v, p)) × (u ≡ c ∷ v)
push_first-eq-some c none h = ground arith
push_first-eq-some c (some (v, q)) h = (v, ground arith, ground arith)

-- What `split(sep, 1)` returns: the text is the first part, the separator and the second part,
-- and the first part has no separator.
pub split_once-eq-some :
    (sep : ℕ) (s : String) {u p : String}
    → split_once sep s ≡ some (u, p)
    → ((c : Char) × (code c ≡ sep) × (s ≡ u ++ c ∷ p)) × Lacks sep u
unfolding split_once
split_once-eq-some sep [] h = ground arith
split_once-eq-some sep (c ∷ s) {u} {p} h = elim (Bool-cases (nat_beq (code c) sep)) [
  | inl here ↦
      let e : some ("", s) ≡ some (u, p) = rw here at h in
      let e₀ : u ≡ "" = ground (arith, e) in
      let e₁ : p ≡ s = ground (arith, e) in
      rw (e₀, e₁) ((c, nat_beq→eq _ _ here, sym (nil-append _)), tt)
  | inr later ↦
      let (v, found, whole) = push_first-eq-some c (split_once sep s) (rw later at h) in
      let ((d, at_sep, e), free) = split_once-eq-some sep s found in
      rw whole ((d, at_sep, ap (λ t. c ∷ t) e ∙ sym (cons-append _ _ _)), (later, free))
]

pub split_once-append :
    (sep : ℕ) (u : String) (c : Char) (p : String)
    → Lacks sep u
    → nat_beq (code c) sep ≡ true
    → split_once sep (u ++ c ∷ p) ≡ some (u, p)
unfolding split_once
split_once-append sep [] c p h k = rw (nil-append, k)
split_once-append sep (d ∷ u) c p (h, hs) k = rw (cons-append, h, split_once-append sep u c p hs k)

pub Lacks-append : (n : ℕ) (s t : String) → Lacks n s → Lacks n t → Lacks n (s ++ t)
Lacks-append n [] t h k = rw nil-append k
Lacks-append n (c ∷ s) t (h, hs) k = rw cons-append (h, Lacks-append n s t hs k)
