-- ===== src/Orders/StockCheck/Line.antt =====
-- What the check of a line tells the staff.
use ikiot_be.Prelude.{
  ℕ, ◌-◌, ◌≤◌, ◌≡◌, ◌≢◌, ◌↔◌, ◌⊎◌, inl, inr, refl, ap, true, false, ◌&&◌, none, some, List, [], ◌∷◌,
  arith, Bool-cases, Option-cases,
}
use ikiot_be.Inventory.Tables.{Inventory}
use ikiot_be.Inventory.Tables.Keys.{StockKey}
use ikiot_be.Orders.Journey.{
  OrderStatus, pending_confirmation, confirmed, packed, picked_up, shipping, received, completed,
  cancelled, returned, pending, draft, ready_to_pack, delivered, among, unshipped_order_statuses,
  OrderLineType, product, combo, combo_component, service, is_stocked, OrderItemStatus,
  item_pending, shipped, item_cancelled, item_returned, waiting_stock, ready, item_packed,
  item_delivered,
}
use ikiot_be.Orders.StockCheck.{
  StockCheck, StockCheckLine, StockCheckOrder, enough, as_enough, classify_stock, line_check,
  checkable_source, is_at, shelf_at, packed_order_statuses, is_pending_item,
}

abbrev pub Packed : OrderStatus → Type 0
Packed s = (s ≡ packed) ⊎ (s ≡ picked_up)

-- A line of goods that is waiting, with a source, in an order that is confirmed or packed.
abbrev pub Checkable : StockCheckOrder → StockCheckLine → ℕ → Type 0
Checkable order line location =
    ((order.status ≡ confirmed) ⊎ Packed order.status)
    × ((line.line_type ≡ product) ⊎ (line.line_type ≡ combo_component))
    × (line.status ≡ item_pending)
    × (line.source_location_id ≡ some location)

-- The first row of the key has `q` pieces that are not locked; with no row `q` is 0.
abbrev pub Available : List Inventory → StockKey → ℕ → Type 0
Available [] key q = q ≡ 0
Available (row ∷ rows) key q =
    ((row.key ≡ key) × (q ≤ row.stock - row.locked_stock))
    ⊎ ((row.key ≢ key) × Available rows key q)

abbrev pub key_at : ℕ → ℕ → ℕ → StockKey
key_at tenant location item = record {
  tenant_id = tenant;
  product_item_id = item;
  location_id = location;
}

is_at-key :
    (tenant location item : ℕ) (row : Inventory)
    → ((is_at tenant location item row ≡ true) × (row.key ≡ key_at tenant location item))
      ⊎ ((is_at tenant location item row ≡ false) × (row.key ≢ key_at tenant location item))
is_at-key tenant location item row = elim (Bool-cases (is_at tenant location item row)) [
  | inl e ↦ inl (e, ground arith)
  | inr e ↦ inr (
    e,
    λ same.
        let tenants = ap (λ k. k.tenant_id) same in
        let items = ap (λ k. k.product_item_id) same in
        let locations = ap (λ k. k.location_id) same in absurd (ground arith),
  )
]

shelf_at-Available :
    (rows : List Inventory) (tenant location item q : ℕ)
    → (q ≤ shelf_at rows tenant location item) ↔ Available rows (key_at tenant location item) q
unfolding shelf_at
shelf_at-Available [] tenant location item q = (λ h. omega arith, λ h. omega arith)
shelf_at-Available (row ∷ rows) tenant location item q = elim (is_at-key tenant location item row) [
  | inl (e, same) ↦ (
    λ h. inl (same, ground arith),
    λ h. elim h [ inl (_, fits) ↦ ground arith | inr (differs, _) ↦ absurd (differs same) ],
  )
  | inr (e, differs) ↦
      let rest = shelf_at-Available rows tenant location item q in
      (
        λ h. inr (differs, rest.0 (ground arith)),
        λ h. elim h [
          | inl (same, _) ↦ absurd (differs same)
          | inr (_, there) ↦ let fits = rest.1 there in ground arith
        ],
      )
]

-- Where an order stands: checked against the shelf, packed, or neither.
status_cases :
    (s : OrderStatus)
    → ((s ≡ confirmed)
        × (among unshipped_order_statuses s ≡ true)
        × (among packed_order_statuses s ≡ false))
      ⊎ (Packed s
          × (among unshipped_order_statuses s ≡ true)
          × (among packed_order_statuses s ≡ true))
      ⊎ ((among unshipped_order_statuses s ≡ false) × ¬ ((s ≡ confirmed) ⊎ Packed s))
status_cases confirmed = inl (refl, refl, refl)
status_cases packed = inr (inl (inl refl, refl, refl))
status_cases picked_up = inr (inl (inr refl, refl, refl))
status_cases pending_confirmation = inr (inr (refl, λ h. ground arith))
status_cases shipping = inr (inr (refl, λ h. ground arith))
status_cases received = inr (inr (refl, λ h. ground arith))
status_cases completed = inr (inr (refl, λ h. ground arith))
status_cases cancelled = inr (inr (refl, λ h. ground arith))
status_cases returned = inr (inr (refl, λ h. ground arith))
status_cases pending = inr (inr (refl, λ h. ground arith))
status_cases draft = inr (inr (refl, λ h. ground arith))
status_cases ready_to_pack = inr (inr (refl, λ h. ground arith))
status_cases delivered = inr (inr (refl, λ h. ground arith))

is_stocked_iff :
    (t : OrderLineType) → (is_stocked t ≡ true) ↔ ((t ≡ product) ⊎ (t ≡ combo_component))
is_stocked_iff product = (λ h. inl refl, λ h. refl)
is_stocked_iff combo_component = (λ h. inr refl, λ h. refl)
is_stocked_iff combo = (λ h. absurd (ground arith), λ h. absurd (ground arith))
is_stocked_iff service = (λ h. absurd (ground arith), λ h. absurd (ground arith))

is_pending_item_iff : (s : OrderItemStatus) → (is_pending_item s ≡ true) ↔ (s ≡ item_pending)
is_pending_item_iff item_pending = (λ h. refl, λ h. refl)
is_pending_item_iff shipped = (λ h. absurd (ground arith), λ h. absurd (ground arith))
is_pending_item_iff item_cancelled = (λ h. absurd (ground arith), λ h. absurd (ground arith))
is_pending_item_iff item_returned = (λ h. absurd (ground arith), λ h. absurd (ground arith))
is_pending_item_iff waiting_stock = (λ h. absurd (ground arith), λ h. absurd (ground arith))
is_pending_item_iff ready = (λ h. absurd (ground arith), λ h. absurd (ground arith))
is_pending_item_iff item_packed = (λ h. absurd (ground arith), λ h. absurd (ground arith))
is_pending_item_iff item_delivered = (λ h. absurd (ground arith), λ h. absurd (ground arith))

goods_cases :
    (line : StockCheckLine)
    → ((is_stocked line.line_type && is_pending_item line.status ≡ true)
        × ((line.line_type ≡ product) ⊎ (line.line_type ≡ combo_component))
        × (line.status ≡ item_pending))
      ⊎ ((is_stocked line.line_type && is_pending_item line.status ≡ false)
          × ((order : StockCheckOrder) (location : ℕ) → ¬ Checkable order line location))
goods_cases line =
    let stocked = is_stocked_iff line.line_type in
    let waits = is_pending_item_iff line.status in
    elim (Bool-cases (is_stocked line.line_type && is_pending_item line.status)) [
      | inl e ↦ inl (e, stocked.0 (ground arith), waits.0 (ground arith))
      | inr e ↦ inr (
        e,
        λ order location (_, goods, waiting, _).
            let a = stocked.1 goods in let b = waits.1 waiting in absurd (ground arith),
      )
    ]

-- A line has a source to check exactly when it is checkable there.
source_cases :
    (order : StockCheckOrder) (line : StockCheckLine)
    → ((checkable_source order line ≡ none) × ¬ ((location : ℕ) × Checkable order line location))
      ⊎ ((location : ℕ) × (checkable_source order line ≡ some location)
          × Checkable order line location)
unfolding checkable_source
source_cases order line = elim (Bool-cases (among unshipped_order_statuses order.status)) [
  | inr e ↦ inl (rw e refl, λ (_, c). closed e c.0)
  | inl e ↦ elim (goods_cases line) [
    | inr (f, other) ↦ inl (rw (e, f) refl, λ (location, c). other order location c)
    | inl (f, goods, waiting) ↦ elim (Option-cases line.source_location_id) [
      | inl g ↦ inl (rw (e, f) g, λ (location, c). absurd (let there = c.3 in ground arith))
      | inr (location, g) ↦ inr (location, rw (e, f) g, (unshipped e, goods, waiting, g))
    ]
  ]
]
  where
    closed :
        among unshipped_order_statuses order.status ≡ false
        → ¬ ((order.status ≡ confirmed) ⊎ Packed order.status)
    closed e h = elim (status_cases order.status) [
      | inl (_, f, _) ↦ absurd (ground arith)
      | inr (inl (_, f, _)) ↦ absurd (ground arith)
      | inr (inr (_, neither)) ↦ neither h
    ]

    unshipped :
        among unshipped_order_statuses order.status ≡ true
        → (order.status ≡ confirmed) ⊎ Packed order.status
    unshipped h = elim (status_cases order.status) [
      | inl (c, _, _) ↦ inl c
      | inr (inl (p, _, _)) ↦ inr p
      | inr (inr (n, _)) ↦ absurd (ground arith)
    ]

classify_iff :
    (quantity shelf : ℕ) → ((classify_stock quantity shelf).status ≡ enough) ↔ (quantity ≤ shelf)
unfolding classify_stock
classify_iff quantity shelf = (λ h. ground arith, λ h. ground arith)

-- A line gets a check exactly when it is of goods (a product or a component of a combo), is pending and
-- has a source, and its order is confirmed, packed or picked up. In a packed or picked up order the
-- check reads ENOUGH; in a confirmed one it reads ENOUGH exactly when the tenant's row for the item at
-- the source has at least the line's quantity beyond what is locked, or, with no such row, when the
-- quantity is 0.
pub line_check_sound :
    (inventories : List Inventory) (tenant : ℕ) (order : StockCheckOrder) (line : StockCheckLine)
    → ((line_check inventories tenant order line ≡ none)
        × ¬ ((location : ℕ) × Checkable order line location))
      ⊎ ((location : ℕ) × Checkable order line location
          × (check : StockCheck) × (line_check inventories tenant order line ≡ some check)
          × ((Packed order.status × (check.status ≡ enough))
              ⊎ ((order.status ≡ confirmed)
                  × ((check.status ≡ enough)
                      ↔ Available inventories
                          (key_at tenant location line.product_item_id)
                          line.quantity))))
unfolding line_check
line_check_sound inventories tenant order line = elim (source_cases order line) [
  | inl (e, other) ↦ inl (ground arith, other)
  | inr (location, e, checkable) ↦
      let shelf = shelf_at inventories tenant location line.product_item_id in
      let check = classify_stock line.quantity shelf in
      let reads = classify_iff line.quantity shelf in
      let held =
        shelf_at-Available inventories tenant location line.product_item_id line.quantity in
      elim (status_cases order.status) [
        | inl (c, _, f) ↦ inr (
          location,
          checkable,
          check,
          ground arith,
          inr (c, (λ h. held.0 (reads.0 h), λ h. reads.1 (held.1 h))),
        )
        | inr (inl (p, _, f)) ↦
            inr (location, checkable, as_enough check, ground arith, inl (p, refl))
        | inr (inr (_, neither)) ↦ absurd (neither checkable.0)
      ]
]
