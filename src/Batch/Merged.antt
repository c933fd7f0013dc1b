-- ===== src/Batch/Merged.antt =====
-- services/cbsd_batch.py: every item of a batch is answered, in its place.
use sas_core.Prelude.{
  ℕ, suc, true, false, Option, none, some, List, [], ◌∷◌, map, length, ltb, nat_beq, ◌≡◌, ◌≤◌, refl,
  ap, ◌∙◌, length-map, arith,
}
use sas_core.Batch.{
  Validated, bad, good, BatchParseResult, parse_item, parse_items, parse_item_batch, set_at,
  set_all, schema_slots, fill, merge_responses,
}

-- What a batch should be answered, from item `idx` on: an item that fails its schema by its code, another
-- by the next of the service's responses.
unfoldable pub in_order {ℓ κ} :
    {Item : Type ℓ} {Resp : Type κ}
    → (ℕ → ℕ → Resp)
    → ℕ
    → List (Validated Item)
    → List Resp
    → List Resp
in_order answer idx [] rs = []
in_order answer idx (bad code ∷ vs) rs = answer idx code ∷ in_order answer (suc idx) vs rs
in_order answer idx (good item ∷ vs) [] = []
in_order answer idx (good item ∷ vs) (r ∷ rs) = r ∷ in_order answer (suc idx) vs rs

module _ {ℓ κ} {Raw : Type ℓ} {Item : Type κ} (validate : Raw → Validated Item) where
  shift_item :
      (k : ℕ) (v : Validated Item) (a b : BatchParseResult Item)
      → a.service_index_map ≡ map suc b.service_index_map
      → (parse_item validate (suc k) v a).service_index_map
        ≡ map suc (parse_item validate k v b).service_index_map
  unfolding parse_item
  shift_item k (bad code) a b h = h
  shift_item k (good item) a b h = ap (λ is. suc k ∷ is) h

  -- Starting one later, the indices are one larger.
  shift-map :
      (k : ℕ) (raws : List Raw)
      → (parse_items validate (suc k) raws).service_index_map
        ≡ map suc (parse_items validate k raws).service_index_map
  unfolding parse_items
  shift-map k [] = refl
  shift-map k (raw ∷ rest) = shift_item k (validate raw) _ _ (shift-map (suc k) rest)

  shift_item_codes :
      (k j : ℕ) (v : Validated Item) (a b : BatchParseResult Item)
      → a.schema_error_codes ≡ b.schema_error_codes
      → (parse_item validate k v a).schema_error_codes
        ≡ (parse_item validate j v b).schema_error_codes
  unfolding parse_item
  shift_item_codes k j (bad code) a b h = ap (λ cs. some code ∷ cs) h
  shift_item_codes k j (good item) a b h = ap (λ cs. none ∷ cs) h

  -- The codes do not depend on the start.
  shift-codes :
      (k j : ℕ) (raws : List Raw)
      → (parse_items validate k raws).schema_error_codes
        ≡ (parse_items validate j raws).schema_error_codes
  unfolding parse_items
  shift-codes k j [] = refl
  shift-codes k j (raw ∷ rest) =
      shift_item_codes k j (validate raw) _ _ (shift-codes (suc k) (suc j) rest)

set_all-suc {ℓ} :
    {Resp : Type ℓ} (x : Option Resp) (out : List (Option Resp)) (is : List ℕ) (rs : List Resp)
    → set_all (x ∷ out) (map suc is) rs ≡ x ∷ set_all out is rs
unfolding set_all set_at
set_all-suc x out [] rs = refl
set_all-suc x out (i ∷ is) [] = refl
set_all-suc x out (i ∷ is) (r ∷ rs) = set_all-suc x (set_at out i r) is rs

set_first {ℓ} :
    {Resp : Type ℓ} (slots : List (Option Resp)) (is : List ℕ) (r : Resp) (rs : List Resp)
    → set_all (none ∷ slots) (0 ∷ is) (r ∷ rs) ≡ set_all (some r ∷ slots) is rs
unfolding set_all set_at
set_first slots is r rs = refl

module _ {ℓ κ μ} {Raw : Type ℓ} {Item : Type κ} {Resp : Type μ} (validate : Raw → Validated Item)
    (answer : ℕ → ℕ → Resp) (default : Resp) where
  filled_item :
      (j : ℕ) (v : Validated Item) (vs : List (Validated Item)) (p : BatchParseResult Item)
      (codes : List (Option ℕ)) (is : List ℕ) (rs : List Resp)
      → p.schema_error_codes ≡ codes
      → p.service_index_map ≡ map suc is
      → ((rest : List Resp)
          → length rest ≡ length is
          → fill default (set_all (schema_slots answer (suc j) codes) is rest)
            ≡ in_order answer (suc j) vs rest)
      → length rs ≡ length (parse_item validate 0 v p).service_index_map
      → fill default (
          set_all
            (schema_slots answer j (parse_item validate 0 v p).schema_error_codes)
            (parse_item validate 0 v p).service_index_map
            rs)
        ≡ in_order answer j (v ∷ vs) rs
  unfolding parse_item schema_slots fill in_order
  filled_item j (bad code) vs p codes is rs c m later h =
      rw (c, m, set_all-suc (some (answer j code)) (schema_slots answer (suc j) codes) is rs)
        (ap (λ out. answer j code ∷ out) (later rs (h ∙ ap length m ∙ length-map suc is)))
  filled_item j (good item) vs p codes is [] c m later h = absurd (omega arith)
  filled_item j (good item) vs p codes is (r ∷ rs) c m later h =
      let n : length p.service_index_map ≡ length is = ap length m ∙ length-map suc is in
      rw
        (
          c,
          m,
          set_first (schema_slots answer (suc j) codes) (map suc is) r rs,
          set_all-suc (some r) (schema_slots answer (suc j) codes) is rs,
        )
        (ap (λ out. r ∷ out) (later rs (omega arith)))

  -- Filled by index, the slots are the batch in order.
  filled :
      (j : ℕ) (raws : List Raw) (rs : List Resp)
      → length rs ≡ length (parse_items validate 0 raws).service_index_map
      → fill default (
          set_all
            (schema_slots answer j (parse_items validate 0 raws).schema_error_codes)
            (parse_items validate 0 raws).service_index_map
            rs)
        ≡ in_order answer j (map validate raws) rs
  unfolding parse_items schema_slots set_all fill in_order
  filled j [] rs h = refl
  filled j (raw ∷ rest) rs h =
      filled_item j (validate raw) (map validate rest) (parse_items validate 1 rest) _ _ rs
        (shift-codes validate 1 0 rest) (shift-map validate 0 rest)
        (λ later e. filled (suc j) rest later e) h

  -- A batch within the limit is parsed; merging as many responses as it has items for the service
  -- never fails, and answers every request in its place: by its schema error, or by the response to it.
  pub merge-parse :
      (limit : ℕ) (raws : List Raw) (rs : List Resp)
      → length raws ≤ limit
      → length rs ≡ length (parse_items validate 0 raws).service_index_map
      → (parse_item_batch validate limit raws ≡ some (parse_items validate 0 raws))
        × (merge_responses answer default
              (parse_items validate 0 raws).schema_error_codes
              (parse_items validate 0 raws).service_index_map
              rs
            ≡ some (in_order answer 0 (map validate raws) rs))
  unfolding parse_item_batch merge_responses
  merge-parse limit raws rs le h =
      let fits : ltb limit (length raws) ≡ false = ground arith in
      let same : nat_beq (length rs) (length (parse_items validate 0 raws).service_index_map)
          ≡ true =
        ground arith in
      (rw fits refl, rw same (ap some (filled 0 raws rs h)))
