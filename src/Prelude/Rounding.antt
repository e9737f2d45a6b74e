-- ===== src/Prelude/Rounding.antt =====
-- `Math.round` of an exact quotient: the nearest whole number, a tie upwards.
use ikiot_be.Prelude.{ℕ, ◌+◌, ◌*◌, ◌/◌, ◌≤◌, ◌<◌, arith}
use ikiot_be.Prelude.Int.{ℤ, pos, negsuc, ◌+ℤ◌, ◌*ℤ◌}
use native.Mathlib.Nat.{mul-div-le, lt-mul-div-succ}

-- round(n / d), for d > 0.
unfoldable pub round_div : ℕ → ℕ → ℕ
round_div n d = (2 * n + d) / (2 * d)

pub round_div_nearest :
    (n d : ℕ) → 0 < d → (2 * d * round_div n d ≤ 2 * n + d) × (2 * n < 2 * d * round_div n d + d)
unfolding round_div
round_div_nearest n d h =
    let low = mul-div-le (2 * n + d) (2 * d) in
    let high = lt-mul-div-succ (2 * n + d) {b = 2 * d} (omega arith) in (omega arith, omega arith)

-- floor(p / d) of a signed number.
abbrev pub div_floor : ℤ → ℕ → ℤ
div_floor (pos n) d = pos (n / d)
div_floor (negsuc n) d = negsuc (n / d)

-- round(p / d) of a signed number, for d > 0.
unfoldable pub round_div_ℤ : ℤ → ℕ → ℤ
round_div_ℤ p d = div_floor (pos 2 *ℤ p +ℤ pos d) (2 * d)
