-- ===== src/Cash/Reconcile/Windows.antt =====
-- Sums over the movements of a window of time.
use ikiot_be.Prelude.{
  ℕ, ◌+◌, ◌≡◌, refl, Bool, true, false, ◌&&◌, Option, none, some, List, [], ◌∷◌, ◌++◌, length,
  sum_by, All, if◌then◌else◌, ltb, leb, arith,
}
use ikiot_be.Prelude.Int.{ℤ, pos, int_laws}
use ikiot_be.Prelude.Sums.{sum_ℤ, sum_ℤ-append}
use ikiot_be.Cash.Reconcile.{CashMovement, CashSegment, amount_in, amount_out}

-- A movement at or after the one time and before the other, where there are such times.
abbrev pub is_from : Option ℕ → CashMovement → Bool
is_from none m = true
is_from (some a) m = leb a m.at

abbrev pub is_before : Option ℕ → CashMovement → Bool
is_before none m = true
is_before (some b) m = ltb m.at b

abbrev pub within : Option ℕ → Option ℕ → CashMovement → Bool
within from to m = is_from from m && is_before to m

abbrev pub during : Option ℕ → Option ℕ → (CashMovement → ℤ) → CashMovement → ℤ
during from to f m = if within from to m then f m else pos 0

abbrev pub one_during : Option ℕ → Option ℕ → CashMovement → ℕ
one_during from to m = if within from to m then 1 else 0

-- The segment counts just the movements from its start on and before its end.
abbrev pub Counts : List CashMovement → CashSegment → Type 0
Counts ms s =
    (s.cash_in ≡ sum_ℤ (during s.from s.to amount_in) ms)
    × (s.cash_out ≡ sum_ℤ (during s.from s.to amount_out) ms)
    × (s.movement_count ≡ sum_by (one_during s.from s.to) ms)

module _ (from to : Option ℕ) where
  abbrev pub Inside : List CashMovement → Type 0
  Inside = All (λ m. within from to m ≡ true)

  abbrev pub Outside : List CashMovement → Type 0
  Outside = All (λ m. within from to m ≡ false)

  pub sum-Inside :
      (f : CashMovement → ℤ) (ms : List CashMovement)
      → Inside ms
      → sum_ℤ (during from to f) ms ≡ sum_ℤ f ms
  sum-Inside f [] h = refl
  sum-Inside f (m ∷ ms) h = rw (h.0, sum-Inside f ms h.1) refl

  pub sum-Outside :
      (f : CashMovement → ℤ) (ms : List CashMovement)
      → Outside ms
      → sum_ℤ (during from to f) ms ≡ pos 0
  sum-Outside f [] h = refl
  sum-Outside f (m ∷ ms) h = rw (h.0, sum-Outside f ms h.1) (omega int_laws)

  pub count-append :
      (xs ys : List CashMovement)
      → sum_by (one_during from to) (xs ++ ys)
        ≡ sum_by (one_during from to) xs + sum_by (one_during from to) ys
  count-append [] ys = omega arith
  count-append (x ∷ xs) ys = omega (arith, count-append xs ys)

  pub count-Inside :
      (ms : List CashMovement) → Inside ms → sum_by (one_during from to) ms ≡ length ms
  count-Inside [] h = refl
  count-Inside (m ∷ ms) h = rw h.0 (omega (arith, count-Inside ms h.1))

  pub count-Outside : (ms : List CashMovement) → Outside ms → sum_by (one_during from to) ms ≡ 0
  count-Outside [] h = refl
  count-Outside (m ∷ ms) h = rw h.0 (omega (arith, count-Outside ms h.1))

  -- Movements outside in front of others do not count.
  pub sum-later :
      (f : CashMovement → ℤ) (here later : List CashMovement)
      → Outside here
      → sum_ℤ (during from to f) (here ++ later) ≡ sum_ℤ (during from to f) later
  sum-later f here later h =
      rw (sum_ℤ-append (during from to f) here later, sum-Outside f here h) (omega int_laws)

  -- Nor do movements outside behind others.
  pub sum-here :
      (f : CashMovement → ℤ) (here later : List CashMovement)
      → Inside here
      → Outside later
      → sum_ℤ (during from to f) (here ++ later) ≡ sum_ℤ f here
  sum-here f here later h k =
      rw (sum_ℤ-append (during from to f) here later, sum-Inside f here h, sum-Outside f later k)
        (omega int_laws)
