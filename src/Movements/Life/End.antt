-- ===== src/Movements/Life/End.antt =====
-- `receive`, `approveAdjust` and `cancel`, where they are accepted.
use ikiot_be.Prelude.{
  ℕ, ◌≡◌, refl, true, false, not, ◌&&◌, some, List, [], ◌∷◌, map, all, any, ◌==◌, arith, ok,
  Bool-cases, Option-cases, Result-cases, inl, inr,
}
use ikiot_be.Inventory.Tables.{Db}
use ikiot_be.Inventory.Lines.{assert_holds_stock}
use ikiot_be.Inventory.History.{Reach}
use ikiot_be.Movements.Tables.{
  pending, cancelled, completed, is_among, final_movement_statuses, MovementItem, Movement,
  Supplier, Shop,
}
use ikiot_be.Movements.Access.{ShopUser, can_act_at}
use ikiot_be.Movements.Lines.{ReceivedLine, receive_lines, bring_lines_back, adjust_lines}
use ikiot_be.Movements.Actions.{
  find_movement, find_movement_or_throw, receive_movement, approve_adjust, cancel_movement,
  is_adjust, receivable, returns_stock, put_status, put_received, update_movement, is_over,
  is_reported, total_received, charge_import, counted_lines,
}
use ikiot_be.Movements.Reach.{receive_lines-Reach, bring_lines_back-Reach, adjust_lines-Reach}
use ikiot_be.Movements.Life.{
  approve_it, cancel_it, receive_it, act, starts, left_by, may_act, counts_lem, events_of, Accepted,
}

module _ (user : ShopUser) (shop shop' : Shop) (i now : ℕ) where
  -- What `receive` needs beside the right to act and the status.
  pub receive-Accepted :
      (dto : List ReceivedLine)
      → act user shop i now (receive_it dto) ≡ ok shop'
      → Accepted user shop shop' i (receive_it dto)
        × ((m : Movement)
            → find_movement user.tenant_id i shop.movements ≡ some m
            → any (is_over dto) m.details ≡ false)
  unfolding act receive_movement find_movement_or_throw starts left_by may_act events_of
  receive-Accepted dto e = elim (Option-cases (find_movement user.tenant_id i shop.movements)) [
    | inl missing ↦ ground arith
    | inr (m, found) ↦ elim (Bool-cases (can_act_at user m.to_location)) [
      | inr denied ↦ ground arith
      | inl may ↦ elim (Bool-cases (is_among m.status (receivable m.movement_type))) [
        | inr elsewhere ↦ ground arith
        | inl there ↦
            let (db, suppliers, went, within, same) = received_parts m found may there e in
            (
              (
                m,
                (
                  found,
                  may,
                  there,
                  rw (← same) (receive_lines-Reach m.details _ _ _ _ _ _ went),
                  rw (← same) refl,
                ),
              ),
              λ n found_n. ground arith,
            )
      ]
    ]
  ]
    where
      received_parts :
          (m : Movement)
          → find_movement user.tenant_id i shop.movements ≡ some m
          → can_act_at user m.to_location ≡ true
          → is_among m.status (receivable m.movement_type) ≡ true
          → act user shop i now (receive_it dto) ≡ ok shop'
          → (db : Db) × (suppliers : List Supplier) × (receive_lines shop.db m user.user_id now dto
                m.details
              ≡ ok db)
            × (any (is_over dto) m.details ≡ false)
            × (record (update_movement shop i (put_received dto)) { db = db; suppliers = suppliers }
                ≡ shop')
      received_parts m found may there e =
          elim (Result-cases (assert_holds_stock (map (λ line. line.product_item) m.details))) [
            | inr (x, refused) ↦ ground arith
            | inl (done, holds) ↦ elim (Bool-cases (all (is_reported dto) m.details)) [
              | inr missing ↦ ground arith
              | inl reported ↦ elim (Bool-cases (any (is_over dto) m.details)) [
                | inl over ↦ ground arith
                | inr within ↦ elim (Bool-cases (total_received dto == 0)) [
                  | inl nothing ↦ ground arith
                  | inr more ↦
                      elim (Result-cases (receive_lines shop.db m user.user_id now dto m.details)) [
                        | inr (x, refused) ↦ ground arith
                        | inl (db, went) ↦ elim (Result-cases (charge_import shop m dto)) [
                          | inr (x, refused) ↦ ground arith
                          | inl (suppliers, charged) ↦ (db, suppliers, went, within, ground arith)
                        ]
                      ]
                ]
              ]
            ]
          ]

  pub approve-Accepted :
      act user shop i now approve_it ≡ ok shop' → Accepted user shop shop' i approve_it
  unfolding act approve_adjust find_movement_or_throw starts left_by may_act events_of
  approve-Accepted e = elim (Option-cases (find_movement user.tenant_id i shop.movements)) [
    | inl missing ↦ ground arith
    | inr (m, found) ↦ elim (Bool-cases (can_act_at user m.from_location)) [
      | inr denied ↦ ground arith
      | inl may ↦ elim (Bool-cases (is_adjust m.movement_type)) [
        | inr other ↦ ground arith
        | inl stocktake ↦ elim (Bool-cases (is_among m.status (pending ∷ []))) [
          | inr elsewhere ↦ ground arith
          | inl there ↦
              let (changes, db, counted, went, same) =
                approved_parts m found may stocktake there e in
              (
                m,
                (
                  found,
                  may,
                  there,
                  rw (counts_lem m.details changes counted, ← same)
                      (adjust_lines-Reach changes _ _ _ _ _ went),
                  rw (← same) refl,
                ),
              )
        ]
      ]
    ]
  ]
    where
      approved_parts :
          (m : Movement)
          → find_movement user.tenant_id i shop.movements ≡ some m
          → can_act_at user m.from_location ≡ true
          → is_adjust m.movement_type ≡ true
          → is_among m.status (pending ∷ []) ≡ true
          → act user shop i now approve_it ≡ ok shop'
          → (changes : List (MovementItem × ℕ)) × (db : Db) × (counted_lines m.details ≡ ok changes)
            × (adjust_lines shop.db m user.user_id now changes ≡ ok db)
            × (record (update_movement shop i (put_status completed)) { db = db } ≡ shop')
      approved_parts m found may stocktake there e =
          elim (Result-cases (assert_holds_stock (map (λ line. line.product_item) m.details))) [
            | inr (x, refused) ↦ ground arith
            | inl (done, holds) ↦ elim (Result-cases (counted_lines m.details)) [
              | inr (x, refused) ↦ ground arith
              | inl (changes, counted) ↦
                  elim (Bool-cases (all (λ change. change.1 == change.0.quantity) changes)) [
                    | inl nothing ↦ ground arith
                    | inr more ↦
                        elim (Result-cases (adjust_lines shop.db m user.user_id now changes)) [
                          | inr (x, refused) ↦ ground arith
                          | inl (db, went) ↦ (changes, db, counted, went, ground arith)
                        ]
                  ]
            ]
          ]

  pub cancel-Accepted :
      act user shop i now cancel_it ≡ ok shop' → Accepted user shop shop' i cancel_it
  unfolding act cancel_movement find_movement_or_throw starts left_by may_act events_of
  cancel-Accepted e = elim (Option-cases (find_movement user.tenant_id i shop.movements)) [
    | inl missing ↦ ground arith
    | inr (m, found) ↦
        let neither =
          not (can_act_at user m.from_location) && not (can_act_at user m.to_location) in
        let moved = update_movement shop i (put_status cancelled) in
        elim (Bool-cases neither) [
          | inl denied ↦ ground arith
          | inr may ↦ elim (Bool-cases (is_among m.status final_movement_statuses)) [
            | inl final ↦ ground arith
            | inr alive ↦
                let there = alive_starts m alive in
                let right : not neither ≡ true = rw may refl in
                elim (Bool-cases (returns_stock m)) [
                  | inr stays ↦
                      let same : moved ≡ shop' = ground arith in
                      (m, (found, right, there, rw (stays, ← same) Reach.here, rw (← same) refl))
                  | inl back ↦
                      elim (Result-cases (bring_lines_back shop.db m user.user_id now m.details)) [
                        | inr (x, refused) ↦ ground arith
                        | inl (db, went) ↦
                            let same : record moved { db = db } ≡ shop' = ground arith in
                            let history = bring_lines_back-Reach m.details _ _ _ _ _ went in
                            (m, (found, right, there, rw (back, ← same) history, rw (← same) refl))
                      ]
                ]
          ]
        ]
  ]
    where
      alive_starts :
          (m : Movement)
          → is_among m.status final_movement_statuses ≡ false
          → is_among m.status (starts cancel_it m) ≡ true
      alive_starts m alive = ground arith
