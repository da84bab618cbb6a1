-- ===== src/Services/Roles/Privileges.antt =====
-- What granting and revoking do to the privileges of a role (xvector/services/role.py).
use xvector.Prelude.{
  String, ◌≡◌, refl, ap, ◌∙◌, Bool, true, false, not, ◌&&◌, ◌||◌, arith, ◌==◌, Bool-cases, inl, inr,
  eq_iff, if◌then◌else◌,
}
use xvector.Json.{Json, null, bool, num, neg, arr, obj, str, Items, nil, cons, is_text}
use xvector.Services.Roles.{
  entry, matches, has_entry, append_item, granted, revoked, member, field_value,
}

-- The role has a privilege that `revoke_privilege` would take away.
unfoldable pub holds : String → String → String → Items → Bool
holds object_type object_name privilege nil = false
holds object_type object_name privilege (cons p ps) =
    matches object_type object_name privilege p || holds object_type object_name privilege ps

holds-append_item :
    (t n p : String) (ps : Items) (v : Json)
    → holds t n p (append_item ps v) ≡ (holds t n p ps || matches t n p v)
unfolding holds append_item
holds-append_item t n p nil v = ground arith
holds-append_item t n p (cons q ps) v = ground (arith, holds-append_item t n p ps v)

has_entry-holds : (t n p : String) (ps : Items) → has_entry t n p ps ≡ true → holds t n p ps ≡ true
unfolding holds has_entry
has_entry-holds t n p nil h = h
has_entry-holds t n p (cons q ps) h = ground (arith, has_entry-holds t n p ps)

matches-entry :
    (t n p t' n' p' : String) → matches t n p (entry t' n' p') ≡ (t' == t && n' == n && p' == p)
unfolding matches field_value is_text
matches-entry t n p t' n' p' = refl

all_equal :
    (t n p t' n' p' : String)
    → (t' == t && n' == n && p' == p) ≡ true
    → (t' ≡ t) × (n' ≡ n) × (p' ≡ p)
all_equal t n p t' n' p' h = ground (arith, eq_iff t' t, eq_iff n' n, eq_iff p' p)

same-matches :
    (t n p t' n' p' : String) (q : Json)
    → (t' == t && n' == n && p' == p) ≡ true
    → matches t' n' p' q ≡ matches t n p q
same-matches t n p t' n' p' q h = let (e₀, e₁, e₂) = all_equal t n p t' n' p' h in rw (e₀, e₁, e₂)

same-holds :
    (t n p t' n' p' : String) (ps : Items)
    → (t' == t && n' == n && p' == p) ≡ true
    → holds t' n' p' ps ≡ holds t n p ps
same-holds t n p t' n' p' ps h = let (e₀, e₁, e₂) = all_equal t n p t' n' p' h in rw (e₀, e₁, e₂)

is_text_unique :
    (v : Json) (a b : String) → is_text v a ≡ true → is_text v b ≡ true → (b == a) ≡ true
unfolding is_text
is_text_unique (str s) a b h k = ground (arith, eq_iff s a, eq_iff s b, eq_iff b a)
is_text_unique null a b h k = ground arith
is_text_unique (bool x) a b h k = ground arith
is_text_unique (num x) a b h k = ground arith
is_text_unique (neg x) a b h k = ground arith
is_text_unique (arr x) a b h k = ground arith
is_text_unique (obj x) a b h k = ground arith

matches_unique :
    (t n p t' n' p' : String) (q : Json)
    → matches t n p q ≡ true
    → matches t' n' p' q ≡ true
    → (t' == t && n' == n && p' == p) ≡ true
unfolding matches
matches_unique t n p t' n' p' q h k = ground (
  arith,
  is_text_unique (member q "object_type") t t',
  is_text_unique (member q "object_name") n n',
  is_text_unique (member q "privilege") p p',
)

-- After granting, a role has exactly the privileges it had and the one granted.
pub holds-granted :
    (t n p t' n' p' : String) (ps : Items)
    → holds t n p (granted t' n' p' ps) ≡ (holds t n p ps || (t' == t && n' == n && p' == p))
unfolding granted
holds-granted t n p t' n' p' ps = elim (Bool-cases (has_entry t' n' p' ps)) [
  | inl there ↦
      ap (λ b. holds t n p (if b then ps else append_item ps (entry t' n' p'))) there
      ∙ ground (arith, has_entry-holds t' n' p' ps there, same-holds t n p t' n' p' ps)
  | inr new ↦
      ap (λ b. holds t n p (if b then ps else append_item ps (entry t' n' p'))) new
      ∙ holds-append_item t n p ps (entry t' n' p')
      ∙ ap (λ b. holds t n p ps || b) (matches-entry t n p t' n' p')
]

-- After revoking, a role has exactly the privileges it had but the one revoked.
pub holds-revoked :
    (t n p t' n' p' : String) (ps : Items)
    → holds t n p (revoked t' n' p' ps) ≡ (holds t n p ps && not (t' == t && n' == n && p' == p))
unfolding revoked holds
holds-revoked t n p t' n' p' nil = ground arith
holds-revoked t n p t' n' p' (cons q ps) = elim (Bool-cases (matches t' n' p' q)) [
  | inl gone ↦
      ap (λ b. holds t n p (if b then revoked t' n' p' ps else cons q (revoked t' n' p' ps))) gone
      ∙ holds-revoked t n p t' n' p' ps
      ∙ ground (arith, gone, matches_unique t n p t' n' p' q)
  | inr kept ↦
      ap (λ b. holds t n p (if b then revoked t' n' p' ps else cons q (revoked t' n' p' ps))) kept
      ∙ ap (λ b. matches t n p q || b) (holds-revoked t n p t' n' p' ps)
      ∙ ground (arith, kept, same-matches t n p t' n' p' q)
]
