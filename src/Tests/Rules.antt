-- ===== src/Tests/Rules.antt =====
-- Runs of the rules of production requests, invoices, subscriptions and low stock.
use ikiot_be.Prelude.{◌≡◌, ◌↔◌, refl, true, false, none, List, [], ◌∷◌, sum_by, arith}
use ikiot_be.Production.{partially_received, completed, manual_transition_violation, RequestLine}
use ikiot_be.Production.Life.{Allowed, manual_transition_iff}
use ikiot_be.Billing.Invoices.{InvoiceableLine, sale_lines, sale_total}
use ikiot_be.Billing.Invoices.Returns.{sale_lines-sum}
use ikiot_be.Billing.Subscriptions.{SubscriptionTerm, SubscriptionStatus, next_subscription_status}
use ikiot_be.Billing.Subscriptions.Expiry.{settle, settle_early}
use ikiot_be.Inventory.Tables.{Inventory}

manual_transition_iff_example :
    (manual_transition_violation partially_received completed true false ≡ none)
    ↔ Allowed partially_received completed true false
manual_transition_iff_example = manual_transition_iff partially_received completed true false

abbrev request : List RequestLine
request =
    record { quantity = 10; received_quantity = 8 }
    ∷ record { quantity = 2; received_quantity = 2 }
    ∷ []

-- Three pieces for 1000 dong of which one came back, and a piece that came back.
abbrev invoice : List InvoiceableLine
invoice =
    record { quantity = 3; returned_quantity = 1; line_total = 100_000; unit_price = 33_333 }
    ∷ record { quantity = 1; returned_quantity = 1; line_total = 5_000; unit_price = 5_000 }
    ∷ []

sale_lines-sum_example :
    sum_by (λ l. l.amount) (sale_lines invoice)
    ≡ sale_total (sum_by (λ l. l.line_total) invoice) invoice
sale_lines-sum_example =
    sale_lines-sum invoice
      ((omega arith, omega arith, refl), ((omega arith, omega arith, refl), tt))

abbrev term : SubscriptionTerm
term = record { status = SubscriptionStatus.active; end_date = 1_000; trial_end_date = none }

settle_early_example :
    next_subscription_status (settle term 2_000) 900_000_000
    ≡ next_subscription_status term 900_000_000
settle_early_example = settle_early term 2_000 900_000_000 (omega arith)

abbrev low_row : Inventory
low_row = record {
  id = 1;
  key = record { tenant_id = 1; product_item_id = 3; location_id = 9 };
  stock = 5;
  locked_stock = 2;
  min_stock = 3;
}
