-- ===== src/Common/Maps.antt =====
-- Python's dicts with text keys, as association lists in the order of insertion.
use precis_mcp.Common.Tests.{if◌then◌else◌}
use precis_mcp.Common.Equality.{Text, text_beq, text_beq_iff, text_eq}
use precis_mcp.Common.Order.{text_ltb, text_ltb_irrefl}
use mathlib.Core.Path.{◌≡◌, refl}
use mathlib.Core.Option.{Option, none, some}
use mathlib.Core.List.{List, [], ◌∷◌}
use native.Mathlib.Omega.{arith}

abbrev pub Dict {ℓ} : Type ℓ → Type ℓ
Dict V = List (Text × V)

module _ {ℓ} {V : Type ℓ} where
  -- `d.get(key)`
  unfoldable pub lookup : Text → Dict V → Option V
  lookup key [] = none
  lookup key ((k, v) ∷ d) = if text_beq k key then some v else lookup key d

  -- `d[key] = value`
  unfoldable pub insert : Text → V → Dict V → Dict V
  insert key value [] = (key, value) ∷ []
  insert key value ((k, v) ∷ d) =
      if text_beq k key then (key, value) ∷ d else (k, v) ∷ insert key value d

  abbrev pub keys : Dict V → List Text
  keys [] = []
  keys ((k, v) ∷ d) = k ∷ keys d

  -- `sorted(d.items())`, where the keys decide
  unfoldable pub insert_item : Text → V → Dict V → Dict V
  insert_item key value [] = (key, value) ∷ []
  insert_item key value ((k, v) ∷ d) =
      if text_ltb k key then (k, v) ∷ insert_item key value d else (key, value) ∷ (k, v) ∷ d

  unfoldable pub sort_items : Dict V → Dict V
  sort_items [] = []
  sort_items ((k, v) ∷ d) = insert_item k v (sort_items d)

  pub lookup-insert :
      (j k : Text) (v : V) (d : Dict V)
      → lookup j (insert k v d) ≡ (if text_beq k j then some v else lookup j d)
  unfolding lookup insert
  lookup-insert j k v [] = refl
  lookup-insert j k v ((i, w) ∷ d) =
      ground (arith, text_beq_iff k j, text_beq_iff i k, text_beq_iff i j, lookup-insert j k v d)

  lookup-insert_item :
      (j k : Text) (v : V) (d : Dict V)
      → lookup j (insert_item k v d) ≡ (if text_beq k j then some v else lookup j d)
  unfolding lookup insert_item
  lookup-insert_item j k v [] = refl
  lookup-insert_item j k v ((i, w) ∷ d) =
      ground
        (arith, text_beq_iff k j, text_beq_iff i j, text_ltb_irrefl k, lookup-insert_item j k v d)

  -- Sorting the items changes no value.
  pub lookup-sort_items : (j : Text) (d : Dict V) → lookup j (sort_items d) ≡ lookup j d
  unfolding lookup sort_items
  lookup-sort_items j [] = refl
  lookup-sort_items j ((k, v) ∷ d) =
      rw (lookup-insert_item j k v (sort_items d), lookup-sort_items j d)
