-- ===== src/Gateway/RouterTable/Served.antt =====
-- The route table of the Gateway and the routes of the processes behind it agree.
use Prim.Native.String.{◌++◌}
use xvector.Prelude.{
  String, ◌≡◌, refl, sym, ap, ◌∙◌, Bool, true, false, ◌&&◌, ◌↔◌, inl, inr, Option, none, some, List,
  [], ◌∷◌, arith, ◌==◌, eq_iff, Bool-cases,
}
use text.Mathlib.TextLemmas.{cons-append}
use text.Mathlib.TextPositions.{starts_with-append}
use xvector.Text.{is_empty}
use xvector.Text.Cut.{after-append}
use xvector.Dict.{get}
use xvector.Gateway.Routes.{Handler, writer_routes, reader_routes}
use xvector.Gateway.RouterTable.{
  Target, writer, reader, route_table, prefix, absolute, resolve_suffix, resolve_target,
}

-- the routes of a process
unfoldable pub routes_of : Target → List (String × Handler)
routes_of writer = writer_routes
routes_of reader = reader_routes

is_some {ℓ} : {A : Type ℓ} → Option A → Bool
is_some none = false
is_some (some a) = true

is_target : Target → Option Target → Bool
is_target writer (some writer) = true
is_target reader (some reader) = true
is_target t o = false

is_target-eq-true : (t : Target) (o : Option Target) → is_target t o ≡ true → o ≡ some t
unfolding is_target
is_target-eq-true writer (some writer) h = refl
is_target-eq-true reader (some reader) h = refl
is_target-eq-true t o h = cc

served : List (String × Target) → Bool
served [] = true
served ((path, t) ∷ table) = is_some (get (routes_of t) path) && served table

is_some-eq-true {ℓ} : {A : Type ℓ} (o : Option A) → is_some o ≡ true → (a : A) × (o ≡ some a)
unfolding is_some
is_some-eq-true none h = cc
is_some-eq-true (some a) h = (a, refl)

served_here :
    (p path : String) (u : Target) {t : Target}
    → (p == path) ≡ true
    → is_some (get (routes_of u) p) ≡ true
    → some u ≡ some t
    → (h : Handler) × (get (routes_of t) path ≡ some h)
served_here p path u {t} here h e =
    let same : p ≡ path = (eq_iff p path).0 here in
    let target : u ≡ t = ground arith in
    let (handler, found) = is_some-eq-true (get (routes_of u) p) h in
    (handler, rw (← same, ← target) found)

served_sound :
    (table : List (String × Target)) (path : String) {t : Target}
    → served table ≡ true
    → get table path ≡ some t
    → (h : Handler) × (get (routes_of t) path ≡ some h)
unfolding served get
served_sound [] path h e = cc
served_sound ((p, u) ∷ table) path h e = elim (Bool-cases (p == path)) [
  | inl here ↦ served_here p path u here (ground arith) (rw here at e)
  | inr later ↦ served_sound table path (ground arith) (rw later at e)
]

route_table-served : served route_table ≡ true
unfolding served route_table is_some routes_of writer_routes reader_routes get
route_table-served = refl

-- the table sends every route of the list to this process
resolved : Target → List (String × Handler) → Bool
resolved t [] = true
resolved t ((path, h) ∷ routes) = is_target t (get route_table path) && resolved t routes

resolved_sound :
    (t : Target) (routes : List (String × Handler)) (path : String) {h : Handler}
    → resolved t routes ≡ true
    → get routes path ≡ some h
    → get route_table path ≡ some t
unfolding resolved get
resolved_sound t [] path r e = cc
resolved_sound t ((p, k) ∷ routes) path r e = elim (Bool-cases (p == path)) [
  | inl here ↦
      rw (← (eq_iff p path).0 here) (is_target-eq-true t (get route_table p) (ground arith))
  | inr later ↦ resolved_sound t routes path (ground arith) (rw later at e)
]

routes_of-resolved : (t : Target) → resolved t (routes_of t) ≡ true
unfolding resolved routes_of writer_routes reader_routes is_target get route_table
routes_of-resolved writer = refl
routes_of-resolved reader = refl

absolute-slash : (q : String) → absolute ("/" ++ q) ≡ "/" ++ q
unfolding absolute
absolute-slash q = rw (starts_with-append "/" q, not_empty)
  where
    not_empty : is_empty ("/" ++ q) ≡ false
    not_empty = rw cons-append

-- The Gateway forwards a path under the prefix to a process exactly when that process has a
-- handler for it.
pub resolve_target_iff :
    (t : Target) (q : String)
    → (resolve_target (prefix ++ "/" ++ q) ≡ some t)
      ↔ ((h : Handler) × (get (routes_of t) ("/" ++ q) ≡ some h))
unfolding resolve_target resolve_suffix
resolve_target_iff t q =
    let e : resolve_target (prefix ++ "/" ++ q) ≡ get route_table ("/" ++ q) =
      ap resolve_suffix (after-append prefix ("/" ++ q))
      ∙ ap (get route_table) (absolute-slash q) in
    (
      λ h. served_sound route_table ("/" ++ q) route_table-served (sym e ∙ h),
      λ p. e ∙ resolved_sound t (routes_of t) ("/" ++ q) (routes_of-resolved t) p.1,
    )
