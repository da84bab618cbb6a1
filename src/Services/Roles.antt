-- ===== src/Services/Roles.antt =====
-- `RoleService` of xvector/services/role.py. A privilege is a dict of texts among the role's
-- "privileges".
pub mod Privileges
use xvector.Prelude.{
  ℕ, suc, String, Bool, true, false, ◌&&◌, ◌||◌, not, Option, none, some, List, [], ◌∷◌, ◌==◌,
  nat_beq, if◌then◌else◌,
}
use xvector.Errors.{param, not_found}
use xvector.Exec.{pure, raise, lift, ◌>>=◌, ◌>>◌}
use xvector.Text.{is_empty}
use xvector.Dict.{set}
use xvector.Json.{
  Json, null, num, str, arr, obj, Doc, Items, nil, cons, Fields, end, field, get_value, or_else,
  is_text,
}
use xvector.Meta.Store.{Zvec}
use xvector.Meta.Catalog.{text_of, required, M}
use xvector.Meta.Catalog.Accounts.{create_role, get_role, put_role, delete_role}

-- d.get(key) of a dict inside a value
unfoldable pub field_value : Fields → String → Json
field_value end key = null
field_value (field k v fs) key = if k == key then v else field_value fs key

abbrev pub member : Json → String → Json
member (obj fs) key = field_value fs key
member _ key = null

abbrev pub field_count : Fields → ℕ
field_count end = 0
field_count (field k v fs) = suc (field_count fs)

abbrev pub has_fields : ℕ → Json → Bool
has_fields n (obj fs) = nat_beq (field_count fs) n
has_fields n _ = false

-- {"object_type": ..., "object_name": ..., "privilege": ...}
abbrev pub entry : String → String → String → Json
entry object_type object_name privilege = obj (
    field "object_type" (str object_type)
      (field "object_name" (str object_name) (field "privilege" (str privilege) end)))

-- the three comparisons of `revoke_privilege`
unfoldable pub matches : String → String → String → Json → Bool
matches object_type object_name privilege p =
    is_text (member p "object_type") object_type
    && is_text (member p "object_name") object_name
    && is_text (member p "privilege") privilege

-- entry in privs: a dict is equal that has the same three items and no other
unfoldable pub has_entry : String → String → String → Items → Bool
has_entry object_type object_name privilege nil = false
has_entry object_type object_name privilege (cons p ps) =
    (has_fields 3 p && matches object_type object_name privilege p)
    || has_entry object_type object_name privilege ps

unfoldable pub append_item : Items → Json → Items
append_item nil v = cons v nil
append_item (cons p ps) v = cons p (append_item ps v)

unfoldable pub granted : String → String → String → Items → Items
granted object_type object_name privilege privs =
    if has_entry object_type object_name privilege privs
    then privs
    else append_item privs (entry object_type object_name privilege)

unfoldable pub revoked : String → String → String → Items → Items
revoked object_type object_name privilege nil = nil
revoked object_type object_name privilege (cons p ps) =
    let rest = revoked object_type object_name privilege ps in
    if matches object_type object_name privilege p then rest else cons p rest

-- role.get("privileges") or []
abbrev pub list_of : Json → Items
list_of (arr privs) = privs
list_of _ = nil

abbrev pub privileges_of : Doc → Items
privileges_of role = list_of (get_value role "privileges")

abbrev pub with_privileges : ℕ → Items → Doc → Doc
with_privileges now privs role = set (set role "privileges" (arr privs)) "updated_at" (num now)

unfoldable pub described : Items → Items
described nil = nil
described (cons p ps) =
    cons
      (obj (
        field "objectType" (or_else (member p "objectType") (member p "object_type")) (
          field "objectName" (or_else (member p "objectName") (member p "object_name"))
            (field "privilege" (member p "privilege") end))))
      (described ps)

module _ {C : Type 0} (z : Zvec C) where
  unfoldable pub add_role : ℕ → String → M z (Unit {0})
  add_role now role_name =
      if is_empty role_name then raise param else create_role z now role_name nil

  unfoldable pub drop_role : String → M z (Unit {0})
  drop_role role_name =
      if role_name == "admin"
      then raise param
      else do role ← get_role z role_name; found ← lift (required role); delete_role z role_name

  unfoldable pub describe_role : String → M z (String × Items)
  describe_role role_name = do
    role ← get_role z role_name
    found ← lift (required role)
    pure (text_of (get_value found "role_name"), described (privileges_of found))

  unfoldable pub grant_privilege : ℕ → String → String → String → String → M z (Unit {0})
  grant_privilege now role_name object_type object_name privilege = do
    role ← get_role z role_name
    found ← lift (required role)
    put_role z now (
        with_privileges now (granted object_type object_name privilege (privileges_of found)) found)

  unfoldable pub revoke_privilege : ℕ → String → String → String → String → M z (Unit {0})
  revoke_privilege now role_name object_type object_name privilege = do
    role ← get_role z role_name
    found ← lift (required role)
    put_role z now (
        with_privileges now (revoked object_type object_name privilege (privileges_of found)) found)
