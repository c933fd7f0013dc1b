-- ===== src/Batch.antt =====
-- services/cbsd_batch.py: items of a batch that fail their schema, and the merge of their answers
-- with the service's. The schema itself (pydantic) is a parameter, `validate`.
pub mod Merged
use Prim.Native.Char.{Char, code}
use sas_core.Prelude.{
  ℕ, zero, suc, ◌+◌, String, Bool, true, false, ◌&&◌, ◌||◌, not, Option, none, some, List, [], ◌∷◌,
  map, length, ltb, nat_beq, if◌then◌else◌, ◌==◌, string_eq,
}

-- services/error_handlers.py: INVALID_VALUE and MAXIMUM_BATCH_SIZE
abbrev pub invalid_value : ℕ
invalid_value = 103

unfoldable pub count_slashes : String → ℕ
count_slashes String.[] = 0
count_slashes (String.◌∷◌ c s) =
    let rest = count_slashes s in if nat_beq (code c) b'/' then suc rest else rest

-- What stands before and after the first slash is not empty.
unfoldable pub before_slash : String → Bool
before_slash String.[] = false
before_slash (String.◌∷◌ c s) = not (nat_beq (code c) b'/')

unfoldable pub after_slash : String → Bool
after_slash String.[] = false
after_slash (String.◌∷◌ c s) =
    let rest = after_slash s in if nat_beq (code c) b'/' then not (s == "") else rest

unfoldable pub any_char : (Char → Bool) → String → Bool
any_char p String.[] = false
any_char p (String.◌∷◌ c s) = p c || any_char p s

-- `is_space` is Python's `str.isspace` of one character.
unfoldable pub is_syntactically_valid_cbsd_id : (Char → Bool) → String → Bool
unfolding count_slashes before_slash after_slash any_char
is_syntactically_valid_cbsd_id is_space s =
    not (s == "")
    && nat_beq (count_slashes s) 1
    && before_slash s
    && after_slash s
    && not (any_char is_space s)

pub data EchoPolicy : Type 0 where
  always never syntactic : EchoPolicy

-- `raw`'s `cbsdId`, for an item that is a dictionary
unfoldable pub should_echo_cbsd_id : (Char → Bool) → EchoPolicy → Option String → Bool
unfolding is_syntactically_valid_cbsd_id
should_echo_cbsd_id is_space never id = false
should_echo_cbsd_id is_space policy none = false
should_echo_cbsd_id is_space always (some id) = true
should_echo_cbsd_id is_space syntactic (some id) = is_syntactically_valid_cbsd_id is_space id

-- What the schema makes of an item: an error code, or the payload for the service.
pub data Validated {ℓ} (Item : Type ℓ) : Type ℓ where
  bad : ℕ → Validated Item
  good : Item → Validated Item

pub record BatchParseResult {ℓ} (Item : Type ℓ) : Type ℓ where
  pub schema_error_codes : List (Option ℕ)
  pub items_for_service : List Item
  pub service_index_map : List ℕ

module _ {ℓ κ} {Raw : Type ℓ} {Item : Type κ} (validate : Raw → Validated Item) where
  -- One pass of the loop, in front of what the rest of the loop makes.
  unfoldable pub parse_item : ℕ → Validated Item → BatchParseResult Item → BatchParseResult Item
  parse_item idx (bad code) rest = record rest {
    schema_error_codes = some code ∷ rest.schema_error_codes;
  }
  parse_item idx (good item) rest = record {
    schema_error_codes = none ∷ rest.schema_error_codes;
    items_for_service = item ∷ rest.items_for_service;
    service_index_map = idx ∷ rest.service_index_map;
  }

  -- The loop from index `idx` on.
  unfoldable pub parse_items : ℕ → List Raw → BatchParseResult Item
  unfolding parse_item
  parse_items idx [] = record {
    schema_error_codes = [];
    items_for_service = [];
    service_index_map = [];
  }
  parse_items idx (raw ∷ rest) = parse_item idx (validate raw) (parse_items (suc idx) rest)

  -- `none` where the code raises: the batch is too long.
  unfoldable pub parse_item_batch : ℕ → List Raw → Option (BatchParseResult Item)
  unfolding parse_items
  parse_item_batch max_batch_size raws =
      if ltb max_batch_size (length raws) then none else some (parse_items 0 raws)

module _ {ℓ} {Resp : Type ℓ} where
  -- `out[i] = r`
  unfoldable pub set_at : List (Option Resp) → ℕ → Resp → List (Option Resp)
  set_at [] i r = []
  set_at (x ∷ xs) zero r = some r ∷ xs
  set_at (x ∷ xs) (suc i) r = x ∷ set_at xs i r

  unfoldable pub set_all : List (Option Resp) → List ℕ → List Resp → List (Option Resp)
  unfolding set_at
  set_all out (i ∷ is) (r ∷ rs) = set_all (set_at out i r) is rs
  set_all out _ _ = out

  -- An answer of the schema's, made of its code at an index.
  unfoldable pub schema_slots : (ℕ → ℕ → Resp) → ℕ → List (Option ℕ) → List (Option Resp)
  schema_slots answer idx [] = []
  schema_slots answer idx (c ∷ cs) =
      (elim c [ none ↦ none | some code ↦ some (answer idx code) ])
      ∷ schema_slots answer (suc idx) cs

  unfoldable pub fill : Resp → List (Option Resp) → List Resp
  fill default [] = []
  fill default (s ∷ ss) = (elim s [ none ↦ default | some r ↦ r ]) ∷ fill default ss

  -- `none` where the code raises: as many responses as items are due.
  unfoldable pub merge_responses :
      (ℕ → ℕ → Resp) → Resp → List (Option ℕ) → List ℕ → List Resp → Option (List Resp)
  unfolding set_all schema_slots fill
  merge_responses answer default codes index_map responses =
      if nat_beq (length responses) (length index_map)
      then some (fill default (set_all (schema_slots answer 0 codes) index_map responses))
      else none
