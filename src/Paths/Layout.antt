-- ===== src/Paths/Layout.antt =====
-- The directories that `DataPaths` of xvector/common/paths.py builds from accepted names.
use Prim.Native.Char.{char}
use Prim.Native.String.{[], ◌∷◌, ◌++◌ as append}
use text.Mathlib.TextLemmas.{
  nil-append, cons-append, append_assoc, append-nil, cons-ne-nil, head-eq_of_cons-eq,
}
use mathlib.Core.List.{append_assoc as list_append_assoc, append_cancel_left}
use xvector.Prelude.{
  String, Char, code, ◌≡◌, refl, sym, ap, ◌∙◌, ◌≢◌, inl, inr, true, false, ◌||◌, [], ◌∷◌, ◌++◌,
  arith, nat_beq, eq_iff, ◌==◌,
}
use xvector.Text.{is_empty, Lacks}
use xvector.Text.Cut.{Lacks-append}
use xvector.Paths.{FilePath, is_name_start, is_name_char, parts_from, join, partition_dir}
use xvector.Paths.Names.{newline, IsWord, IsName, IsAccepted}

-- A text that pathlib reads as one part of a path.
abbrev pub IsPart : String → Type 0
IsPart s = Lacks b'/' s × (s ≢ "") × (s ≢ ".")

is_empty-eq-true : (s : String) → is_empty s ≡ true → s ≡ ""
is_empty-eq-true [] h = refl
is_empty-eq-true (c ∷ s) h = cc

keeps_part : (cur : String) → cur ≢ "" → cur ≢ "." → (is_empty cur || cur == ".") ≡ false
keeps_part cur h k = ground (arith, is_empty-eq-true cur, eq_iff cur ".")

parts_from_part :
    (cur s w : String)
    → append cur s ≡ w
    → Lacks b'/' s
    → w ≢ ""
    → w ≢ "."
    → parts_from cur s ≡ w ∷ []
unfolding parts_from
parts_from_part cur [] w e free h k =
    let same : cur ≡ w = sym (append-nil cur) ∙ e in rw (same, keeps_part w h k)
parts_from_part cur (c ∷ s) w e (no_slash, free) h k = rw no_slash (
    parts_from_part (append cur (c ∷ [])) s w
      (append_assoc cur (c ∷ []) s
        ∙ ap (append cur) (cons-append c "" s ∙ ap (λ t. c ∷ t) (nil-append s))
        ∙ e)
      free h k)

join_part : (base : FilePath) (s : String) → IsPart s → join base s ≡ base ++ s ∷ []
unfolding join
join_part base [] (free, h, k) = absurd (h refl)
join_part base (c ∷ s) (free, h, k) =
    rw (free.0, parts_from_part "" (c ∷ s) (c ∷ s) (nil-append _) free h k)

name_char-ne-slash : (c : Char) → is_name_char c ≡ true → nat_beq (code c) b'/' ≡ false
name_char-ne-slash c h = ground arith

IsWord-Lacks : (s : String) → IsWord s → Lacks b'/' s
IsWord-Lacks [] w = tt
IsWord-Lacks (c ∷ s) (h, w) = (name_char-ne-slash c h, IsWord-Lacks s w)

start-ne-dot : (c : Char) → is_name_start c ≡ true → c ≢ char 46 tt
start-ne-dot c h e = let same : code c ≡ 46 = ap code e in ground arith

IsName-IsPart : (s : String) → IsName s → IsPart s
IsName-IsPart [] h = absurd h
IsName-IsPart (c ∷ s) (h, w, l) = (
  (name_char-ne-slash c (ground arith), IsWord-Lacks s w),
  (λ e. absurd (cons-ne-nil c s e)),
  λ e. start-ne-dot c h (head-eq_of_cons-eq e),
)

IsAccepted-IsPart : (s : String) → IsAccepted s → IsPart s
IsAccepted-IsPart s (inl h) = IsName-IsPart s h
IsAccepted-IsPart s (inr ([], e, h)) = absurd h
IsAccepted-IsPart s (inr (c ∷ t, e, (h, w, l))) = rw e (
  Lacks-append b'/' (c ∷ t) (newline ∷ []) (name_char-ne-slash c (ground arith), IsWord-Lacks t w)
      (refl, tt),
  (λ e'. absurd (cons-ne-nil c _ (sym (cons-append c t _) ∙ e'))),
  λ e'. start-ne-dot c h (head-eq_of_cons-eq (sym (cons-append c t _) ∙ e')),
)

IsPart-dbs : IsPart "dbs"
IsPart-dbs = IsName-IsPart "dbs" (ground arith)

IsPart-collections : IsPart "collections"
IsPart-collections = IsName-IsPart "collections" (ground arith)

-- With accepted names the directory of a partition is
-- root/dbs/<db>/collections/<collection>/<partition>.
pub partition_dir-layout :
    (root : FilePath) (db coll part : String)
    → IsAccepted db
    → IsAccepted coll
    → IsAccepted part
    → partition_dir root db coll part ≡ root ++ "dbs" ∷ db ∷ "collections" ∷ coll ∷ part ∷ []
unfolding partition_dir
partition_dir-layout root db coll part h k l = simp (
  λ (base : FilePath). join_part base "dbs" IsPart-dbs,
  λ (base : FilePath). join_part base db (IsAccepted-IsPart db h),
  λ (base : FilePath). join_part base "collections" IsPart-collections,
  λ (base : FilePath). join_part base coll (IsAccepted-IsPart coll k),
  λ (base : FilePath). join_part base part (IsAccepted-IsPart part l),
  list_append_assoc,
)

-- With accepted names, two partitions share a directory only if their database, collection and
-- partition names agree.
pub partition_dir-injective :
    (root : FilePath) {db coll part db' coll' part' : String}
    → IsAccepted db × IsAccepted coll × IsAccepted part
    → IsAccepted db' × IsAccepted coll' × IsAccepted part'
    → partition_dir root db coll part ≡ partition_dir root db' coll' part'
    → (db ≡ db') × (coll ≡ coll') × (part ≡ part')
partition_dir-injective root (h₁, h₂, h₃) (k₁, k₂, k₃) e =
    let tails = append_cancel_left root _ _ (
      sym (partition_dir-layout root _ _ _ h₁ h₂ h₃)
      ∙ e
      ∙ partition_dir-layout root _ _ _ k₁ k₂ k₃) in
    (ground (arith, tails), ground (arith, tails), ground (arith, tails))
