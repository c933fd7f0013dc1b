-- ===== src/Json.antt =====
-- JSON values as Python's `json` module gives them, and the operations on a `dict` that the services
-- use: `get`, assignment, the truth test and `_deep_merge` of services/registration_service.py.
pub mod Merge
use sas_core.Prelude.{
  ℕ, zero, suc, String, Bool, true, false, not, Option, none, some, List, [], ◌∷◌, ◌++◌,
  if◌then◌else◌, ◌==◌, string_eq,
}
use sas_core.Number.{Number, finite}
use sas_core.Prelude.Int.{ℤ, pos, negsuc}

mutual
  pub data Json : Type 0 where
    null : Json
    bool : Bool → Json
    num : Number → Json
    text : String → Json
    arr : Items → Json
    obj : Fields → Json

  pub data Items : Type 0 where
    nil : Items
    cons : Json → Items → Items

  -- The entries of a `dict`, in their order.
  pub data Fields : Type 0 where
    end : Fields
    field : String → Json → Fields → Fields

-- `d.get(key)`, where `none` is a key that is not there.
unfoldable pub get : String → Fields → Option Json
get key end = none
get key (field k v rest) = if k == key then some v else get key rest

-- `d[key] = value`: in its place, or at the end.
unfoldable pub put : String → Json → Fields → Fields
put key v end = field key v end
put key v (field k w rest) =
    let others = put key v rest in if k == key then field key v rest else field k w others

-- `_deep_merge`: the overlay wins, except that two objects are merged.
unfoldable mutual
  pub deep_merge : Fields → Fields → Fields
  deep_merge base end = base
  deep_merge base (field key value rest) =
      deep_merge (put key (merge_value (get key base) value) base) rest

  pub merge_value : Option Json → Json → Json
  merge_value (some (obj base)) (obj overlay) = obj (deep_merge base overlay)
  merge_value _ value = value

-- Python's truth test.
unfoldable pub truthy : Json → Bool
truthy null = false
truthy (bool b) = b
truthy (num (finite (pos zero))) = false
truthy (num _) = true
truthy (text s) = not (s == "")
truthy (arr nil) = false
truthy (arr (cons x xs)) = true
truthy (obj end) = false
truthy (obj (field k v rest)) = true

unfoldable pub is_null : Json → Bool
is_null null = true
is_null _ = false

-- `d.get(key)` in a truth test
unfoldable pub has : String → Fields → Bool
has key d = elim (get key d) [ none ↦ false | some v ↦ truthy v ]

-- `d.get(key) is not None`
unfoldable pub given : String → Fields → Bool
given key d = elim (get key d) [ none ↦ false | some v ↦ not (is_null v) ]

-- `{k: v for k, v in d.items() if v is not None}`
unfoldable pub drop_nulls : Fields → Fields
drop_nulls end = end
drop_nulls (field k v rest) =
    let others = drop_nulls rest in if is_null v then others else field k v others

-- `d.get(key) or ""`, of a value that is a text where it is not missing
unfoldable pub text_of : String → Fields → String
text_of key d = elim (get key d) [ some (text s) ↦ s | _ ↦ "" ]

-- `d.get(key)`, of a value that is a text or null
unfoldable pub maybe_text : String → Fields → Option String
maybe_text key d = elim (get key d) [ some (text s) ↦ some s | _ ↦ none ]

-- `isinstance(v, (int, float))` and the number; a Boolean is an `int` in Python.
unfoldable pub number : Json → Option Number
number (num n) = some n
number (bool true) = some (finite (pos 1000))
number (bool false) = some (finite (pos 0))
number _ = none

-- The objects that `d.get(key) or {}` reads fields of; `none` where reading one raises.
unfoldable pub object_or_empty : Option Json → Option Fields
object_or_empty none = some end
object_or_empty (some (obj d)) = some d
object_or_empty (some v) = if truthy v then none else some end
