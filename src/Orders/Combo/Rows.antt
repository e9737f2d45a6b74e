-- ===== src/Orders/Combo/Rows.antt =====
-- The money and the goods of the rows that an order's lines become.
use ikiot_be.Prelude.{
  ℕ, suc, ◌*◌, ◌≡◌, refl, true, false, not, ◌&&◌, List, [], ◌∷◌, sum_by, sum_by-append, arith,
  if◌then◌else◌, ◌==◌, Bool-cases, inl, inr,
}
use ikiot_be.Orders.Journey.{OrderLineType, combo, combo_component, product, service, is_stocked}
use ikiot_be.Orders.Pricing.{PricedLine}
use ikiot_be.Orders.Combo.{
  ComboLeaf, OrderItemRow, SourcedLine, is_combo, is_service, line_row, leaf_row, leaf_rows,
  build_order_item_rows,
}

leaf_rows-money :
    (parent : ℕ) (s : SourcedLine) (leaves : List ComboLeaf)
    → sum_by (λ r. r.line_total) (leaf_rows parent s leaves) ≡ 0
unfolding leaf_rows leaf_row
leaf_rows-money parent s [] = refl
leaf_rows-money parent s (l ∷ ls) = omega (arith, leaf_rows-money parent s ls)

-- The money of an order stands in its lines only: whatever its combos hold, the rows' totals add up to
-- the totals of the lines.
pub build_order_item_rows-money :
    (uuid : ℕ → ℕ) (n : ℕ) (lines : List SourcedLine) (components : ℕ → List ComboLeaf)
    (total_of : PricedLine → ℕ)
    → sum_by (λ r. r.line_total) (build_order_item_rows uuid n lines components total_of)
      ≡ sum_by (λ s. total_of s.line) lines
unfolding build_order_item_rows line_row
build_order_item_rows-money uuid n [] components total_of = refl
build_order_item_rows-money uuid n (s ∷ ss) components total_of =
    let rest = build_order_item_rows-money uuid (suc n) ss components total_of in
    let leaves = leaf_rows (uuid n) s (components s.line.product_item_id) in
    let others = build_order_item_rows uuid (suc n) ss components total_of in
    let split = sum_by-append (λ r. r.line_total) leaves others in
    let free = leaf_rows-money (uuid n) s (components s.line.product_item_id) in
    elim (Bool-cases (is_combo s.line.item_type)) [
      | inl e ↦ rw e (omega (arith, rest, split, free))
      | inr e ↦ rw e (omega (arith, rest))
    ]

-- The pieces of product `p` that a row takes from stock.
abbrev pub taken_by : ℕ → OrderItemRow → ℕ
taken_by p r = if is_stocked r.line_type && r.product_item_id == p then r.quantity else 0

-- The pieces of `p` in one set of the leaves, services left out.
abbrev pub stocked_pieces : ℕ → List ComboLeaf → ℕ
stocked_pieces p leaves =
    sum_by (λ l. if not (is_service l.item.item_type) && l.item.id == p then l.quantity else 0)
      leaves

-- The pieces of `p` that a line sells: its own, or those of its combo's sets.
abbrev pub sold_by : ℕ → (ℕ → List ComboLeaf) → SourcedLine → ℕ
sold_by p components s =
    if is_combo s.line.item_type
    then s.line.quantity * stocked_pieces p (components s.line.product_item_id)
    else (if is_stocked s.line.item_type && s.line.product_item_id == p then s.line.quantity else 0)

leaf_row-taken :
    (p parent : ℕ) (s : SourcedLine) (l : ComboLeaf)
    → taken_by p (leaf_row parent s l)
      ≡ s.line.quantity
        * (if not (is_service l.item.item_type) && l.item.id == p then l.quantity else 0)
unfolding leaf_row
leaf_row-taken p parent s l = elim (Bool-cases (is_service l.item.item_type)) [
  | inl e ↦ rw e (omega arith)
  | inr e ↦
      rw e (elim (Bool-cases (l.item.id == p)) [ inl f ↦ rw f refl | inr f ↦ rw f (omega arith) ])
]

leaf_rows-taken :
    (p parent : ℕ) (s : SourcedLine) (leaves : List ComboLeaf)
    → sum_by (taken_by p) (leaf_rows parent s leaves) ≡ s.line.quantity * stocked_pieces p leaves
unfolding leaf_rows
leaf_rows-taken p parent s [] = omega arith
leaf_rows-taken p parent s (l ∷ ls) =
    omega (arith, leaf_row-taken p parent s l, leaf_rows-taken p parent s ls)

combo_takes_none : (t : OrderLineType) → is_combo t ≡ true → is_stocked t ≡ false
combo_takes_none combo e = refl
combo_takes_none combo_component e = cc
combo_takes_none product e = cc
combo_takes_none service e = cc

-- The rows take from stock exactly the goods that the lines sell: a product's line its own pieces, a
-- combo's line none itself but, through the rows below it, the pieces of all its sets.
pub build_order_item_rows-taken :
    (p : ℕ) (uuid : ℕ → ℕ) (n : ℕ) (lines : List SourcedLine) (components : ℕ → List ComboLeaf)
    (total_of : PricedLine → ℕ)
    → sum_by (taken_by p) (build_order_item_rows uuid n lines components total_of)
      ≡ sum_by (sold_by p components) lines
unfolding build_order_item_rows line_row
build_order_item_rows-taken p uuid n [] components total_of = refl
build_order_item_rows-taken p uuid n (s ∷ ss) components total_of =
    let rest = build_order_item_rows-taken p uuid (suc n) ss components total_of in
    let leaves = leaf_rows (uuid n) s (components s.line.product_item_id) in
    let others = build_order_item_rows uuid (suc n) ss components total_of in
    let split = sum_by-append (taken_by p) leaves others in
    let goods = leaf_rows-taken p (uuid n) s (components s.line.product_item_id) in
    elim (Bool-cases (is_combo s.line.item_type)) [
      | inl e ↦ rw e (rw (combo_takes_none s.line.item_type e) (omega (arith, rest, split, goods)))
      | inr e ↦ rw e (omega (arith, rest))
    ]
