-- ===== src/Cash/Reconcile.antt =====
-- src/modules/cash-drawer-sessions/cash-reconciliation.ts. Amounts are signed hundredths of a dong,
-- which the Decimal(14,2) columns hold exactly; times are milliseconds.
pub mod Chain
pub mod Windows
pub mod Account
use ikiot_be.Prelude.{
  ℕ, ◌≡◌, Bool, true, false, Option, none, some, List, [], ◌∷◌, length, sort_by, if◌then◌else◌, ltb,
  leb,
}
use ikiot_be.Prelude.Int.{ℤ, pos, ◌+ℤ◌, ◌-ℤ◌, neg}
use ikiot_be.Prelude.Rounding.{round_div_ℤ}
use ikiot_be.Prelude.Sums.{sum_ℤ}

pub data FlowType : Type 0 where
  income expense : FlowType

pub data ShiftLogType : Type 0 where
  start end : ShiftLogType

pub data CashSegmentKind : Type 0 where
  opening shift gap closing : CashSegmentKind

pub record CashMovement : Type 0 where
  pub at : ℕ
  pub flow_type : FlowType
  pub amount : ℤ

pub record ShiftLogEntry : Type 0 where
  pub log_type : ShiftLogType
  pub staff_id : ℕ
  pub amount : ℤ
  pub logged_at : ℕ

pub record ReconcileInput : Type 0 where
  pub opening_amount : ℤ
  pub final_amount : Option ℤ
  pub shift_logs : List ShiftLogEntry
  pub movements : List CashMovement

pub record CashSegment : Type 0 where
  pub kind : CashSegmentKind
  pub staff_id : Option ℕ
  pub from : Option ℕ
  pub to : Option ℕ
  pub opening_count : ℤ
  pub closing_count : Option ℤ
  pub cash_in : ℤ
  pub cash_out : ℤ
  pub net_cash : ℤ
  pub expected : ℤ
  pub variance : Option ℤ
  pub movement_count : ℕ

pub record Totals : Type 0 where
  pub opening_amount : ℤ
  pub cash_in : ℤ
  pub cash_out : ℤ
  pub net_cash : ℤ
  pub expected_closing : ℤ
  pub counted_closing : Option ℤ
  pub variance : Option ℤ

pub record Reconciliation : Type 0 where
  pub totals : Totals
  pub movement_count : ℕ
  pub segments : List CashSegment

-- `Math.round(value * 100) / 100` of a number of hundredths. `-0` is 0 among the integers.
unfoldable pub money : ℤ → ℤ
unfolding round_div_ℤ
money value = round_div_ℤ value 1

abbrev pub money? : Option ℤ → Option ℤ
money? none = none
money? (some v) = some (money v)

-- `counted === null ? null : money(counted - expected)`.
abbrev pub short_of : Option ℤ → ℤ → Option ℤ
short_of none expected = none
short_of (some counted) expected = some (money (counted -ℤ expected))

abbrev pub is_income : CashMovement → Bool
is_income m = elim m.flow_type [ income ↦ true | expense ↦ false ]

unfoldable pub signed_amount : CashMovement → ℤ
signed_amount m = if is_income m then m.amount else neg m.amount

abbrev pub amount_in : CashMovement → ℤ
amount_in m = if is_income m then m.amount else pos 0

abbrev pub amount_out : CashMovement → ℤ
amount_out m = if is_income m then pos 0 else m.amount

abbrev pub logged_before : ShiftLogEntry → ShiftLogEntry → Bool
logged_before a b = ltb a.logged_at b.logged_at

abbrev pub moved_before : CashMovement → CashMovement → Bool
moved_before a b = ltb a.at b.at

-- The `while` loop: the movements before the next log, and those that the cursor leaves.
unfoldable pub split_at_log :
    Option ShiftLogEntry → List CashMovement → List CashMovement × List CashMovement
split_at_log none ms = (ms, [])
split_at_log (some next) [] = ([], [])
split_at_log (some next) (m ∷ ms) =
    let rest = split_at_log (some next) ms in
    if leb next.logged_at m.at then ([], m ∷ ms) else (m ∷ rest.0, rest.1)

unfoldable pub segment_kind : Option ShiftLogEntry → Option ShiftLogEntry → CashSegmentKind
segment_kind none next = opening
segment_kind (some previous) next = elim previous.log_type [
  | start ↦ shift
  | end ↦ elim next [ none ↦ closing | some _ ↦ gap ]
]

abbrev pub holder : Option ShiftLogEntry → Option ℕ
holder none = none
holder (some previous) = elim previous.log_type [ start ↦ some previous.staff_id | end ↦ none ]

abbrev pub time_of : Option ShiftLogEntry → Option ℕ
time_of none = none
time_of (some l) = some l.logged_at

-- One turn of the `for` loop.
unfoldable pub segment :
    Option ShiftLogEntry → Option ShiftLogEntry → ℤ → Option ℤ → List CashMovement → CashSegment
unfolding segment_kind
segment previous next opening_count closing_count ms =
    let cash_in = sum_ℤ amount_in ms in
    let cash_out = sum_ℤ amount_out ms in
    let net_cash = cash_in -ℤ cash_out in
    let expected = opening_count +ℤ net_cash in
    record {
      kind = segment_kind previous next;
      staff_id = holder previous;
      from = time_of previous;
      to = time_of next;
      opening_count = money opening_count;
      closing_count = money? closing_count;
      cash_in = money cash_in;
      cash_out = money cash_out;
      net_cash = money net_cash;
      expected = money expected;
      variance = short_of closing_count expected;
      movement_count = length ms;
    }

-- The `for` loop, from the log `previous` on. It breaks only where the last segment is not counted.
unfoldable pub segments_from :
    Option ShiftLogEntry → ℤ → Option ℤ → List ShiftLogEntry → List CashMovement → List CashSegment
unfolding segment split_at_log
segments_from previous opening_count final [] ms =
    segment previous none opening_count final (split_at_log none ms).0 ∷ []
segments_from previous opening_count final (next ∷ logs) ms =
    let (here, later) = split_at_log (some next) ms in
    segment previous (some next) opening_count (some next.amount) here
    ∷ segments_from (some next) next.amount final logs later

unfoldable pub summarize_variance : ℤ → Option ℤ → ℤ → ℤ → Totals
summarize_variance opening_amount final_amount cash_in cash_out =
    let net_cash = cash_in -ℤ cash_out in
    let expected_closing = opening_amount +ℤ net_cash in
    record {
      opening_amount = money opening_amount;
      cash_in = money cash_in;
      cash_out = money cash_out;
      net_cash = money net_cash;
      expected_closing = money expected_closing;
      counted_closing = money? final_amount;
      variance = short_of final_amount expected_closing;
    }

unfoldable pub reconcile_session : ReconcileInput → Reconciliation
unfolding segments_from summarize_variance
reconcile_session input =
    let logs = sort_by logged_before input.shift_logs in
    let movements = sort_by moved_before input.movements in
    let cash_in = sum_ℤ amount_in movements in
    let cash_out = sum_ℤ amount_out movements in
    let net_cash = cash_in -ℤ cash_out in
    let expected_closing = input.opening_amount +ℤ net_cash in
    record {
      totals = record {
        opening_amount = money input.opening_amount;
        cash_in = money cash_in;
        cash_out = money cash_out;
        net_cash = money net_cash;
        expected_closing = money expected_closing;
        counted_closing = money? input.final_amount;
        variance = short_of input.final_amount expected_closing;
      };
      movement_count = length movements;
      segments = segments_from none input.opening_amount input.final_amount logs movements;
    }
