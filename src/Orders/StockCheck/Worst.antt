-- ===== src/Orders/StockCheck/Worst.antt =====
-- The summary of an order's checks.
use ikiot_be.Prelude.{
  ℕ, ◌≤◌, ◌<◌, ◌≡◌, ◌⊎◌, inl, inr, refl, true, false, Option, none, some, List, [], ◌∷◌, All, any,
  arith, Bool-cases,
}
use ikiot_be.Orders.StockCheck.{
  StockCheck, StockCheckStatus, enough, partial, out, severity, has_status, summarize_stock,
}

-- No line that has a check is worse than `s`.
abbrev pub NoWorse : StockCheckStatus → Option StockCheck → Type 0
NoWorse s none = Unit
NoWorse s (some check) = severity s ≤ severity check.status

not_below : (a b : ℕ) → ¬ (a < b) → b ≤ a
not_below a b h = ground (arith, h)

none_worse :
    (s : StockCheckStatus) (checks : List (Option StockCheck))
    → ((t : StockCheckStatus) → severity t < severity s → any (has_status t) checks ≡ false)
    → All (NoWorse s) checks
none_worse s [] h = tt
none_worse s (none ∷ cs) h = (tt, none_worse s cs h)
none_worse s (some c ∷ cs) h = (
  not_below (severity c.status) (severity s) (λ lt. ground (arith, h c.status lt)),
  none_worse s cs (λ t lt. ground (arith, h t lt)),
)

no_checks :
    (checks : List (Option StockCheck))
    → ((t : StockCheckStatus) → any (has_status t) checks ≡ false)
    → All (λ c. c ≡ none) checks
no_checks [] h = tt
no_checks (none ∷ cs) h = (refl, no_checks cs h)
no_checks (some c ∷ cs) h = absurd (ground (arith, h c.status))

-- The summary of an order is the status of its worst line: some line has it and none is worse; and it
-- is missing exactly when no line has a check.
pub summarize_stock_worst :
    (checks : List (Option StockCheck))
    → ((s : StockCheckStatus) × (summarize_stock checks ≡ some s)
        × (any (has_status s) checks ≡ true)
        × All (NoWorse s) checks)
      ⊎ ((summarize_stock checks ≡ none) × All (λ c. c ≡ none) checks)
unfolding summarize_stock
summarize_stock_worst checks = elim (Bool-cases (any (has_status out) checks)) [
  | inl a ↦ inl (out, rw a refl, a, none_worse out checks (λ t lt. absurd (omega (arith, lt))))
  | inr a ↦ elim (Bool-cases (any (has_status partial) checks)) [
    | inl b ↦ inl (partial, rw a (rw b refl), b, none_worse partial checks (worse_than_partial a))
    | inr b ↦ elim (Bool-cases (any (has_status enough) checks)) [
      | inl c ↦
          inl (enough, rw a (rw b (rw c refl)), c, none_worse enough checks (worse_than_enough a b))
      | inr c ↦ inr (rw a (rw b (rw c refl)), no_checks checks (nothing a b c))
    ]
  ]
]
  where
    worse_than_partial :
        any (has_status out) checks ≡ false
        → (t : StockCheckStatus) → severity t < severity partial
        → any (has_status t) checks ≡ false
    worse_than_partial a out lt = a
    worse_than_partial a partial lt = absurd (omega (arith, lt))
    worse_than_partial a enough lt = absurd (omega (arith, lt))

    worse_than_enough :
        any (has_status out) checks ≡ false
        → any (has_status partial) checks ≡ false
        → (t : StockCheckStatus) → severity t < severity enough
        → any (has_status t) checks ≡ false
    worse_than_enough a b out lt = a
    worse_than_enough a b partial lt = b
    worse_than_enough a b enough lt = absurd (omega (arith, lt))

    nothing :
        any (has_status out) checks ≡ false
        → any (has_status partial) checks ≡ false
        → any (has_status enough) checks ≡ false
        → (t : StockCheckStatus) → any (has_status t) checks ≡ false
    nothing a b c out = a
    nothing a b c partial = b
    nothing a b c enough = c
