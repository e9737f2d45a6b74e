-- ===== src/Movements/Debt.antt =====
-- What receiving an import adds to the debt with its supplier.
use ikiot_be.Prelude.{
  ◌≢◌, ℕ, ◌+◌, ◌*◌, ◌≤◌, ◌<◌, ◌≡◌, ◌⊎◌, not, Option, none, some, List, filter, find?, ◌==◌, ok, err,
}
use ikiot_be.Movements.Tables.{Supplier, supplier_not_found, supplier_credit_limit_exceeded}
use ikiot_be.Movements.Actions.{charge}

-- The warning of a charge: with a limit, when the debt comes to three quarters of it and was below.
abbrev pub Warns : Supplier → ℕ → Option (ℕ × ℕ) → Type 0
Warns s amount warning =
    let debt = s.outstanding_debt in
    let limit = s.credit_limit in
    ((warning ≡ some (debt + amount, limit))
      × (0 < limit)
      × (3 * limit ≤ 4 * (debt + amount))
      × (4 * debt < 3 * limit))
    ⊎ ((warning ≡ none)
        × ((limit ≡ 0) ⊎ (4 * (debt + amount) < 3 * limit) ⊎ (3 * limit ≤ 4 * debt)))

-- What a charge above 0 of the supplier `s` comes to.
abbrev pub ChargeOf : List Supplier → ℕ → ℕ → ℕ → Supplier → Type 0
ChargeOf suppliers tenant i amount s =
    ((charge suppliers tenant i amount ≡ err supplier_not_found) × (s.tenant_id ≢ tenant))
    ⊎ ((charge suppliers tenant i amount ≡ err supplier_credit_limit_exceeded)
        × (s.tenant_id ≡ tenant)
        × (0 < s.credit_limit)
        × (s.credit_limit < s.outstanding_debt + amount))
    ⊎ ((charged : List Supplier) × (warning : Option (ℕ × ℕ)) × (charge suppliers tenant i amount
          ≡ ok (charged, warning))
        × (s.tenant_id ≡ tenant)
        × ((s.credit_limit ≡ 0) ⊎ (s.outstanding_debt + amount ≤ s.credit_limit))
        × (find? (λ t. t.id == i) charged
            ≡ some (record s { outstanding_debt = s.outstanding_debt + amount }))
        × (filter (λ t. not (t.id == i)) charged ≡ filter (λ t. not (t.id == i)) suppliers)
        × Warns s amount warning)
