-- ===== src/Json/Merge.antt =====
-- services/registration_service.py: what `_deep_merge` finds under a key.
use sas_core.Prelude.{
  String, ◌≡◌, refl, Option, none, some, Bool-cases, inl, inr, if◌then◌else◌, ◌==◌, string_eq,
  eq_iff, arith,
}
use sas_core.Json.{Json, Fields, end, field, get, put, deep_merge, merge_value}

get-put :
    (k j : String) (v : Json) (d : Fields)
    → get k (put j v d) ≡ (if j == k then some v else get k d)
unfolding get put
get-put k j v end = refl
get-put k j v (field i w rest) =
    ground (arith, eq_iff i j, eq_iff i k, eq_iff j k, get-put k j v rest)

-- The keys of a `dict` are distinct.
abbrev pub UniqueKeys : Fields → Type 0
UniqueKeys end = Unit
UniqueKeys (field k v rest) = (get k rest ≡ none) × UniqueKeys rest

-- What a key of the overlay leaves of an older entry.
abbrev pub overlaid : Option Json → Option Json → Option Json
overlaid old none = old
overlaid old (some v) = some (merge_value old v)

-- A key of the merged `dict` holds what the overlay says, merged into the older object where both are
-- objects, and what the base says where the overlay has no such key.
pub get-deep_merge :
    (overlay base : Fields) (k : String)
    → UniqueKeys overlay
    → get k (deep_merge base overlay) ≡ overlaid (get k base) (get k overlay)
unfolding get deep_merge
get-deep_merge end base k u = refl
get-deep_merge (field key value rest) base k u =
    let ih = get-deep_merge rest (put key (merge_value (get key base) value) base) k u.1 in
    elim (Bool-cases (key == k)) [
      | inl e ↦
          let same : key ≡ k = (eq_iff key k).0 e in
          let none_left : get k rest ≡ none = rw (← same) u.0 in
          rw (e, ih, get-put k key (merge_value (get key base) value) base, e, none_left, same) refl
      | inr e ↦ rw (e, ih, get-put k key (merge_value (get key base) value) base, e) refl
    ]
