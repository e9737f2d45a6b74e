-- ===== src/Orders/Combo/Sets.antt =====
-- How many sets the shelf covers.
use native.Mathlib.Nat.{le-div_iff_mul-le}
use ikiot_be.Prelude.{ℕ, ◌*◌, ◌≤◌, ◌<◌, ◌≡◌, ◌↔◌, List, [], ◌∷◌, filter, All, arith}
use ikiot_be.Orders.Combo.{ComboLeaf, combo_sets_available, min_sets, holds_stock}

-- `n` sets take no more of a stocked leaf than the shelf has.
abbrev pub Covers : ℕ → (ℕ → ℕ) → ComboLeaf → Type 0
Covers n shelf l = n * l.quantity ≤ shelf l.item.id

abbrev pub stocked : List ComboLeaf → List ComboLeaf
stocked = filter (λ l. holds_stock l.item.item_type)

min_sets_iff :
    (n : ℕ) (shelf : ℕ → ℕ) (leaf : ComboLeaf) (others : List ComboLeaf)
    → All (λ l. 0 < l.quantity) (leaf ∷ others)
    → (n ≤ min_sets leaf others shelf) ↔ All (Covers n shelf) (leaf ∷ others)
unfolding min_sets
min_sets_iff n shelf leaf [] h =
    let one = le-div_iff_mul-le h.0 in (λ le. (one.0 le, tt), λ all. one.1 all.0)
min_sets_iff n shelf leaf (other ∷ others) h =
    let one = le-div_iff_mul-le h.0 in
    let rest = min_sets_iff n shelf other others h.1 in
    (
      λ le. (one.0 (omega (arith, le)), rest.0 (omega (arith, le))),
      λ all. omega (arith, one.1 all.0, rest.1 all.1),
    )

-- For a combo with a stocked leaf, whose quantities are above 0, `n` sets are within the count exactly
-- when the shelf has `n` times the quantity of every stocked leaf: the scarcest one decides.
pub combo_sets_available_iff :
    (n : ℕ) (shelf : ℕ → ℕ) (leaves : List ComboLeaf) (leaf : ComboLeaf) (others : List ComboLeaf)
    → stocked leaves ≡ leaf ∷ others
    → All (λ l. 0 < l.quantity) (leaf ∷ others)
    → (n ≤ combo_sets_available leaves shelf) ↔ All (Covers n shelf) (stocked leaves)
unfolding combo_sets_available
combo_sets_available_iff n shelf leaves leaf others some_leaf h =
    let e : combo_sets_available leaves shelf ≡ min_sets leaf others shelf = ground arith in
    rw some_leaf (rw e (min_sets_iff n shelf leaf others h))
