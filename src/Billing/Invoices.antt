-- ===== src/Billing/Invoices.antt =====
-- src/modules/invoices/invoice-math.ts. Amounts are hundredths of a dong; the lines' totals are no
-- less than 0. The texts of the invoice numbers are not modelled.
pub mod Returns
use ikiot_be.Prelude.{
  ℕ, ◌+◌, ◌-◌, ◌*◌, Bool, true, false, ◌||◌, List, [], ◌∷◌, map, filter, sum_by, if◌then◌else◌, ltb,
  ◌==◌,
}
use ikiot_be.Prelude.Rounding.{round_div}

pub record InvoiceableLine : Type 0 where
  pub quantity : ℕ
  pub returned_quantity : ℕ
  pub line_total : ℕ
  pub unit_price : ℕ

-- `Math.round` of hundredths to whole dong: line_total * returned / (100 * quantity).
unfoldable pub returned_value : ℕ → ℕ → ℕ → ℕ
returned_value quantity line_total returned =
    if quantity == 0 || returned == 0
    then 0
    else 100 * round_div (line_total * returned) (100 * quantity)

-- A line of the sale invoice. The quantity that is left is signed in the source and only lines above 0
-- are kept.
pub record SaleLine : Type 0 where
  pub line : InvoiceableLine
  pub quantity : ℕ
  pub amount : ℕ

abbrev pub line_returned_value : InvoiceableLine → ℕ
line_returned_value line = returned_value line.quantity line.line_total line.returned_quantity

unfoldable pub sale_lines : List InvoiceableLine → List SaleLine
sale_lines [] = []
sale_lines (line ∷ lines) =
    if ltb line.returned_quantity line.quantity
    then record {
      line = line;
      quantity = line.quantity - line.returned_quantity;
      amount = line.line_total - line_returned_value line;
    }
      ∷ sale_lines lines
    else sale_lines lines

unfoldable pub sale_total : ℕ → List InvoiceableLine → ℕ
sale_total grand_total lines = grand_total - sum_by line_returned_value lines
