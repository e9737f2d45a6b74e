-- ===== src/Movements/Life/Start.antt =====
-- `open`, `close` and `ship`, where they are accepted.
use ikiot_be.Prelude.{
  ℕ, ◌≡◌, refl, [], ◌∷◌, map, arith, ok, Bool-cases, Option-cases, Result-cases, inl, inr,
}
use ikiot_be.Inventory.Tables.{TxType}
use ikiot_be.Inventory.Lines.{assert_holds_stock}
use ikiot_be.Inventory.History.{Reach}
use ikiot_be.Movements.Tables.{draft, pending, opening, closed, in_transit, is_among, Shop}
use ikiot_be.Movements.Access.{ShopUser, can_act_at}
use ikiot_be.Movements.Lines.{movement_ledger, send_lines}
use ikiot_be.Movements.Actions.{
  find_movement, find_movement_or_throw, assert_source_stock, open_movement, close_movement,
  ship_movement, is_transfer, put_status, update_movement,
}
use ikiot_be.Movements.Reach.{send_lines-Reach}
use ikiot_be.Movements.Life.{
  open_it, close_it, ship_it, act, starts, left_by, may_act, events_of, Accepted,
}

module _ (user : ShopUser) (shop shop' : Shop) (i now : ℕ) where
  pub open-Accepted : act user shop i now open_it ≡ ok shop' → Accepted user shop shop' i open_it
  unfolding act open_movement find_movement_or_throw starts left_by may_act events_of
  open-Accepted e = elim (Option-cases (find_movement user.tenant_id i shop.movements)) [
    | inl missing ↦ ground arith
    | inr (m, found) ↦ elim (Bool-cases (can_act_at user m.from_location)) [
      | inr denied ↦ ground arith
      | inl may ↦ elim (Bool-cases (is_among m.status (draft ∷ []))) [
        | inr elsewhere ↦ ground arith
        | inl there ↦ elim (Result-cases (assert_source_stock shop.db m)) [
          | inr (x, short) ↦ ground arith
          | inl (done, covered) ↦
              let same : update_movement shop i (put_status opening) ≡ shop' = ground arith in
              (m, (found, may, there, rw (← same) Reach.here, rw (← same) refl))
        ]
      ]
    ]
  ]

  pub close-Accepted : act user shop i now close_it ≡ ok shop' → Accepted user shop shop' i close_it
  unfolding act close_movement find_movement_or_throw starts left_by may_act events_of
  close-Accepted e = elim (Option-cases (find_movement user.tenant_id i shop.movements)) [
    | inl missing ↦ ground arith
    | inr (m, found) ↦ elim (Bool-cases (can_act_at user m.from_location)) [
      | inr denied ↦ ground arith
      | inl may ↦ elim (Bool-cases (is_among m.status (opening ∷ []))) [
        | inr elsewhere ↦ ground arith
        | inl there ↦ elim (Result-cases (assert_source_stock shop.db m)) [
          | inr (x, short) ↦ ground arith
          | inl (done, covered) ↦
              let same : update_movement shop i (put_status closed) ≡ shop' = ground arith in
              (m, (found, may, there, rw (← same) Reach.here, rw (← same) refl))
        ]
      ]
    ]
  ]

  pub ship-Accepted : act user shop i now ship_it ≡ ok shop' → Accepted user shop shop' i ship_it
  unfolding act ship_movement find_movement_or_throw starts left_by may_act events_of
  ship-Accepted e = elim (Option-cases (find_movement user.tenant_id i shop.movements)) [
    | inl missing ↦ ground arith
    | inr (m, found) ↦
        let ledger = movement_ledger m.id user.user_id TxType.transfer_out in
        let moved = update_movement shop i (put_status in_transit) in
        elim (Bool-cases (can_act_at user m.from_location)) [
          | inr denied ↦ ground arith
          | inl may ↦ elim (Bool-cases (is_among m.status (closed ∷ pending ∷ []))) [
            | inr elsewhere ↦ ground arith
            | inl there ↦
                elim (Result-cases
                  (assert_holds_stock (map (λ line. line.product_item) m.details))) [
                    | inr (x, refused) ↦ ground arith
                    | inl (done, holds) ↦ elim (Bool-cases (is_transfer m.movement_type)) [
                      | inr no_transfer ↦
                          let same : moved ≡ shop' = ground arith in
                          (
                            m,
                            (
                              found,
                              may,
                              there,
                              rw (no_transfer, ← same) Reach.here,
                              rw (← same) refl,
                            ),
                          )
                      | inl transfer ↦
                          elim (Result-cases
                            (send_lines shop.db m.tenant_id m.from_location ledger m.details)) [
                              | inr (x, refused) ↦ ground arith
                              | inl (db, went) ↦
                                  let same : record moved { db = db } ≡ shop' = ground arith in
                                  let history = send_lines-Reach m.details _ _ _ _ _ went in
                                  (
                                    m,
                                    (
                                      found,
                                      may,
                                      there,
                                      rw (transfer, ← same) history,
                                      rw (← same) refl,
                                    ),
                                  )
                            ]
                    ]
                  ]
          ]
        ]
  ]
