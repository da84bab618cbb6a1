-- ===== src/Services/Users/Passwords.antt =====
-- Who passes the password check of xvector/services/user.py.
use xvector.Prelude.{
  ℕ, String, ◌≡◌, refl, sym, ap, ◌∙◌, true, false, Option, none, some, arith, ◌==◌, ◌||◌,
  Bool-cases, Option-cases, inl, inr,
}
use xvector.Errors.{ok, err, already_exists, param}
use xvector.Dict.{get, set}
use xvector.Json.{Doc, get_value}
use xvector.Text.{is_empty}
use xvector.Auth.{Settings, bootstrap_matches, verify_password}
use xvector.Meta.DocId.{doc_user, make_id}
use xvector.Meta.Store.{Zvec, Store, stamped, non_empty, find, upsert}
use xvector.Meta.Catalog.Open.{IsOpen, find-IsOpen, find-stored}
use xvector.Meta.Catalog.Accounts.{get_user, put_user}
use xvector.Services.Users.{new_user, create, verify, checked}

module _ {C : Type 0} (z : Zvec C) (settings : Settings)
    (hash_password : String → String → String) where
  create-missing :
      (now : ℕ) (salt username password : String) (s : Store C)
      → (is_empty username || is_empty password) ≡ true
      → create z settings hash_password now salt username password s ≡ (err param, s)
  unfolding create
  create-missing now salt username password s h = ground (arith, h)

  create-absent :
      (now : ℕ) (salt username password : String) (s : Store C)
      → (is_empty username || is_empty password) ≡ false
      → find z (make_id doc_user username) s ≡ (ok none, s)
      → create z settings hash_password now salt username password s
        ≡ upsert z now
            (make_id doc_user username)
            doc_user
            (new_user now username salt (hash_password password salt))
            s
  unfolding create get_user put_user get_value get
  create-absent now salt username password s h f = ground (arith, h)

  create-present :
      (now : ℕ) (salt username password : String) (d : Doc) (s : Store C)
      → (is_empty username || is_empty password) ≡ false
      → find z (make_id doc_user username) s ≡ (ok (some d), s)
      → create z settings hash_password now salt username password s ≡ (err already_exists, s)
  unfolding create get_user
  create-present now salt username password d s h f = ground (arith, h)

  created :
      (now : ℕ) (salt username password : String) (s : Store C) {t : Store C}
      → IsOpen s
      → create z settings hash_password now salt username password s ≡ (ok tt, t)
      → upsert z now
          (make_id doc_user username)
          doc_user
          (new_user now username salt (hash_password password salt))
          s
        ≡ (ok tt, t)
  created now salt username password s o h =
      elim (Bool-cases (is_empty username || is_empty password)) [
        | inl missing ↦ let r = create-missing now salt username password s missing in cc
        | inr given ↦ elim (Option-cases (non_empty (get s.docs (make_id doc_user username)))) [
          | inl absent ↦
              let f = find-IsOpen z (make_id doc_user username) s o ∙ ap (λ x. (ok x, s)) absent in
              sym (create-absent now salt username password s given f) ∙ h
          | inr (d, there) ↦
              let f = find-IsOpen z (make_id doc_user username) s o ∙ ap (λ x. (ok x, s)) there in
              let r = create-present now salt username password d s given f in cc
        ]
      ]

  checked-stamped :
      (now : ℕ) (salt username hash p : String)
      → checked z settings hash_password
          (some
            (stamped now (make_id doc_user username) doc_user (new_user now username salt hash)))
          p
        ≡ (hash_password p salt == hash)
  unfolding verify_password stamped get_value get set
  checked-stamped now salt username hash p = refl

  verify-found :
      (username p : String) (o : Option Doc) (s : Store C)
      → find z (make_id doc_user username) s ≡ (ok o, s)
      → verify z settings hash_password username p s
        ≡ (ok (bootstrap_matches settings username p || checked z settings hash_password o p), s)
  unfolding verify get_user
  verify-found username p o s f = ground (arith, f)

  -- After `create` has returned on a Writer's open store, a password passes the check for the new
  -- user exactly when it is the bootstrap user's own or has the hash of the password given, under
  -- the salt drawn.
  pub verify-create :
      (now : ℕ) (salt username password p : String) (s : Store C) {t : Store C}
      → IsOpen s
      → create z settings hash_password now salt username password s ≡ (ok tt, t)
      → verify z settings hash_password username p t ≡ (
        ok (
            bootstrap_matches settings username p
            || hash_password p salt == hash_password password salt),
        t,
      )
  verify-create now salt username password p s {t} o h =
      let user = new_user now username salt (hash_password password salt) in
      let u = created now salt username password s o h in
      verify-found username p (some (stamped now (make_id doc_user username) doc_user user)) t
        (find-stored z now (make_id doc_user username) doc_user user s u o)
      ∙ ap (λ b. (ok (bootstrap_matches settings username p || b), t))
          (checked-stamped now salt username (hash_password password salt) p)
