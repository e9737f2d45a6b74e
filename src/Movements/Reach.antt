-- ===== src/Movements/Reach.antt =====
-- What the loops over the lines of a movement do to the stock, as histories of its primitives.
use ikiot_be.Prelude.{
  ℕ, ◌-◌, ◌≡◌, ap, Option, none, some, List, [], ◌∷◌, map, if◌then◌else◌, ltb, ◌==◌, arith, ok,
  Bool-cases, Option-cases, Result-cases, inl, inr,
}
use ikiot_be.Inventory.Tables.{LedgerRef, Db, TxType, RefType, LotSource}
use ikiot_be.Inventory.Stock.{open_lot, deduct_stock}
use ikiot_be.Inventory.Return.{DrawnBy, return_drawn}
use ikiot_be.Inventory.History.{ShelfEvent, Step, Reach}
use ikiot_be.Movements.Tables.{Movement, MovementItem, LocationEnd}
use ikiot_be.Movements.Lines.{
  key_of, movement_ledger, send_lines, ReceivedLine, received_or_zero, is_import, import_origin,
  receive_line, receive_lines, bring_lines_back, adjustment_origin, adjust_line, adjust_lines,
  stock_of,
}

-- The location that a loop reads at each of its lines; of an end that is not there it reads none.
abbrev pub place : Option LocationEnd → ℕ
place none = 0
place (some location) = location.id

abbrev pub sent : ℕ → Option LocationEnd → List MovementItem → List ShelfEvent
sent tenant from = map (λ line. ShelfEvent.take (key_of tenant (place from) line) line.quantity)

abbrev pub brought_back : ℕ → Option LocationEnd → List MovementItem → List ShelfEvent
brought_back tenant from =
    map (λ line. ShelfEvent.arrive (key_of tenant (place from) line) line.quantity)

abbrev pub arrived :
    ℕ → Option LocationEnd → List ReceivedLine → List MovementItem → List ShelfEvent
arrived tenant to dto [] = []
arrived tenant to dto (line ∷ lines) =
    if received_or_zero dto line == 0
    then arrived tenant to dto lines
    else ShelfEvent.arrive (key_of tenant (place to) line) (received_or_zero dto line)
      ∷ arrived tenant to dto lines

abbrev pub adjusted : ℕ → Option LocationEnd → List (MovementItem × ℕ) → List ShelfEvent
adjusted tenant from [] = []
adjusted tenant from ((line, counted) ∷ lines) =
    let k = key_of tenant (place from) line in
    if counted == line.quantity
    then adjusted tenant from lines
    else (if ltb line.quantity counted
        then ShelfEvent.arrive k (counted - line.quantity)
        else ShelfEvent.take k (line.quantity - counted))
      ∷ adjusted tenant from lines

pub send_lines-Reach :
    (lines : List MovementItem) (db db' : Db) (tenant : ℕ) (from : Option LocationEnd)
    (ledger : LedgerRef)
    → send_lines db tenant from ledger lines ≡ ok db'
    → Reach db (sent tenant from lines) db'
unfolding send_lines
send_lines-Reach [] db db' tenant from ledger e =
    let same : db ≡ db' = ground arith in rw (← same) Reach.here
send_lines-Reach (line ∷ lines) db db' tenant none ledger e = ground arith
send_lines-Reach (line ∷ lines) db db' tenant (some l) ledger e =
    let k = key_of tenant l.id line in
    elim (Result-cases (deduct_stock db k line.quantity line.label ledger)) [
      | inr (x, refused) ↦ ground arith
      | inl ((db₁, row), taken) ↦
          Reach.then (Step.deducted k line.quantity line.label ledger row taken)
            (send_lines-Reach lines db₁ db' tenant (some l) ledger (ground arith))
    ]

pub bring_lines_back-Reach :
    (lines : List MovementItem) (db db' : Db) (m : Movement) (user now : ℕ)
    → bring_lines_back db m user now lines ≡ ok db'
    → Reach db (brought_back m.tenant_id m.from_location lines) db'
unfolding bring_lines_back
bring_lines_back-Reach [] db db' m user now e =
    let same : db ≡ db' = ground arith in rw (← same) Reach.here
bring_lines_back-Reach (line ∷ lines) db db' m user now e =
    let k = key_of m.tenant_id (place m.from_location) line in
    let by = DrawnBy.document RefType.stock_movement m.id in
    let ledger = movement_ledger m.id user TxType.transfer_in in
    elim (Option-cases m.from_location) [
      | inl nowhere ↦ ground arith
      | inr (l, there) ↦
          elim (Result-cases
            (return_drawn db k line.quantity by ledger (some LotSource.opening) now)) [
              | inr (x, refused) ↦ ground arith
              | inl ((db₁, row), back) ↦
                  Reach.then
                    (Step.returned k line.quantity by ledger (some LotSource.opening) now row back)
                    (bring_lines_back-Reach lines db₁ db' m user now (ground arith))
            ]
    ]

receive_line-Step :
    (db db' : Db) (m : Movement) (to user now : ℕ) (line : MovementItem) (q : ℕ)
    → receive_line db m to user now line q ≡ ok db'
    → Step db db' (ShelfEvent.arrive (key_of m.tenant_id to line) q)
unfolding receive_line
receive_line-Step db db' m to user now line q e =
    let k = key_of m.tenant_id to line in
    let by = DrawnBy.document RefType.stock_movement m.id in
    let imported = movement_ledger m.id user TxType.import in
    let moved = movement_ledger m.id user TxType.transfer_in in
    elim (Bool-cases (is_import m.movement_type)) [
      | inl bought ↦
          elim (Result-cases
            (open_lot db k q line.import_price (import_origin m line) none now imported)) [
              | inr (x, refused) ↦ ground arith
              | inl ((db₁, row, lot), opened) ↦
                  let same : db₁ ≡ db' = ground arith in
                  rw (← same) (
                    Step.opened k q line.import_price (import_origin m line) none now imported row
                      lot opened)
            ]
      | inr moved_in ↦
          elim (Result-cases (return_drawn db k q by moved (some LotSource.opening) now)) [
            | inr (x, refused) ↦ ground arith
            | inl ((db₁, row), back) ↦
                let same : db₁ ≡ db' = ground arith in
                rw (← same) (Step.returned k q by moved (some LotSource.opening) now row back)
          ]
    ]

pub receive_lines-Reach :
    (lines : List MovementItem) (db db' : Db) (m : Movement) (user now : ℕ)
    (dto : List ReceivedLine)
    → receive_lines db m user now dto lines ≡ ok db'
    → Reach db (arrived m.tenant_id m.to_location dto lines) db'
unfolding receive_lines
receive_lines-Reach [] db db' m user now dto e =
    let same : db ≡ db' = ground arith in rw (← same) Reach.here
receive_lines-Reach (line ∷ lines) db db' m user now dto e =
    let q = received_or_zero dto line in
    elim (Bool-cases (q == 0)) [
      | inl nothing ↦ rw nothing (receive_lines-Reach lines db db' m user now dto (ground arith))
      | inr more ↦ elim (Option-cases m.to_location) [
        | inl nowhere ↦ ground arith
        | inr (l, there) ↦ elim (Result-cases (receive_line db m l.id user now line q)) [
          | inr (x, refused) ↦ ground arith
          | inl (db₁, arrives) ↦
              let here : place m.to_location ≡ l.id = ap place there in
              rw (more, here)
                (Reach.then (receive_line-Step db db₁ m l.id user now line q arrives)
                  (receive_lines-Reach lines db₁ db' m user now dto (ground arith)))
        ]
      ]
    ]

adjust_line-Step :
    (db db' : Db) (m : Movement) (from user now : ℕ) (line : MovementItem) (counted : ℕ)
    → adjust_line db m from user now line counted ≡ ok db'
    → let k = key_of m.tenant_id from line in
      Step db db' (
        if ltb line.quantity counted
        then ShelfEvent.arrive k (counted - line.quantity)
        else ShelfEvent.take k (line.quantity - counted))
unfolding adjust_line
adjust_line-Step db db' m from user now line counted e =
    let k = key_of m.tenant_id from line in
    let ledger = movement_ledger m.id user TxType.adjust in
    elim (Bool-cases (ltb line.quantity counted)) [
      | inl surplus ↦
          elim (Result-cases
            (open_lot db k (counted - line.quantity) none adjustment_origin none now ledger)) [
              | inr (x, refused) ↦ ground arith
              | inl ((db₁, row, lot), opened) ↦
                  let same : db₁ ≡ db' = ground arith in
                  rw (surplus, ← same)
                    (Step.opened k (counted - line.quantity) none adjustment_origin none now ledger
                      row lot opened)
            ]
      | inr shortage ↦
          elim (Bool-cases (ltb (stock_of k db.inventories) (line.quantity - counted))) [
            | inl below ↦ ground arith
            | inr fits ↦
                elim (Result-cases
                  (deduct_stock db k (line.quantity - counted) line.label ledger)) [
                    | inr (x, refused) ↦ ground arith
                    | inl ((db₁, row), taken) ↦
                        let same : db₁ ≡ db' = ground arith in
                        rw (shortage, ← same)
                          (Step.deducted k (line.quantity - counted) line.label ledger row taken)
                  ]
          ]
    ]

pub adjust_lines-Reach :
    (lines : List (MovementItem × ℕ)) (db db' : Db) (m : Movement) (user now : ℕ)
    → adjust_lines db m user now lines ≡ ok db'
    → Reach db (adjusted m.tenant_id m.from_location lines) db'
unfolding adjust_lines
adjust_lines-Reach [] db db' m user now e =
    let same : db ≡ db' = ground arith in rw (← same) Reach.here
adjust_lines-Reach ((line, counted) ∷ lines) db db' m user now e =
    elim (Bool-cases (counted == line.quantity)) [
      | inl nothing ↦ rw nothing (adjust_lines-Reach lines db db' m user now (ground arith))
      | inr more ↦ elim (Option-cases m.from_location) [
        | inl nowhere ↦ ground arith
        | inr (l, there) ↦ elim (Result-cases (adjust_line db m l.id user now line counted)) [
          | inr (x, refused) ↦ ground arith
          | inl (db₁, moved) ↦
              let here : place m.from_location ≡ l.id = ap place there in
              rw (more, here)
                (Reach.then (adjust_line-Step db db₁ m l.id user now line counted moved)
                  (adjust_lines-Reach lines db₁ db' m user now (ground arith)))
        ]
      ]
    ]
