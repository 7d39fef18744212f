-- ===== src/Base/Embeds.antt =====
-- Lists that stand in others, in order.
use mathlib.Core.Path.{◌≡◌, refl}
use mathlib.Core.List.{List, [], ◌∷◌, ◌++◌}

-- The first list's items stand in the second in this order, others between them.
pub data Embeds {A : Type 0} : List A → List A → Type 0 where
  empty : {xs : List A} → Embeds [] xs
  skip : {ws xs : List A} {x : A} → Embeds ws xs → Embeds ws (x ∷ xs)
  keep : {ws xs : List A} {x : A} → Embeds ws xs → Embeds (x ∷ ws) (x ∷ xs)

-- A list that has an item and more has the rest.
tail-Embeds : {A : Type 0} {w : A} {ws xs : List A} → Embeds (w ∷ ws) xs → Embeds ws xs
tail-Embeds (skip e) = skip (tail-Embeds e)
tail-Embeds (keep e) = skip e

pub not_empty : {A : Type 0} {w : A} {ws : List A} → Embeds (w ∷ ws) [] → ⊥
not_empty e = elim e [ ]

pub unkeep : {A : Type 0} {w x : A} {ws xs : List A} → Embeds (w ∷ ws) (x ∷ xs) → Embeds ws xs
unkeep (skip e) = tail-Embeds e
unkeep (keep e) = e

pub unskip :
    {A : Type 0} {w x : A} {ws xs : List A}
    → (w ≡ x → ⊥)
    → Embeds (w ∷ ws) (x ∷ xs)
    → Embeds (w ∷ ws) xs
unskip ne (skip e) = e
unskip ne (keep e) = absurd (ne refl)

module _ {A : Type 0} where
  -- More items at the end change nothing.
  pub Embeds-append : {ws xs : List A} (ys : List A) → Embeds ws xs → Embeds ws (xs ++ ys)
  Embeds-append ys empty = empty
  Embeds-append ys (skip e) = skip (Embeds-append ys e)
  Embeds-append ys (keep e) = keep (Embeds-append ys e)

  last_one : (xs : List A) (x : A) → Embeds (x ∷ []) (xs ++ x ∷ [])
  last_one [] x = keep empty
  last_one (y ∷ xs) x = skip (last_one xs x)

  -- One more item on both sides.
  pub Embeds-snoc : {ws xs : List A} (x : A) → Embeds ws xs → Embeds (ws ++ x ∷ []) (xs ++ x ∷ [])
  Embeds-snoc {xs} x empty = last_one xs x
  Embeds-snoc x (skip e) = skip (Embeds-snoc x e)
  Embeds-snoc x (keep e) = keep (Embeds-snoc x e)
