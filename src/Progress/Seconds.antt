-- ===== src/Progress/Seconds.antt =====
-- The division of floats that `_eta_seconds` of ml/processing_progress.py does, rounded as IEEE 754 rounds
-- doubles. A float that is not negative is a fraction whose denominator is a power of two. No subnormal
-- and no infinite values come up here.
use event_vision_pipeline.Base.{
  ℕ, zero, suc, ◌*◌, ◌/◌, ◌%◌, true, false, ◌&&◌, ◌||◌, leb, ltb, ◌==◌, if◌then◌else◌,
}

pub record Float : Type 0 where
  pub numerator : ℕ
  pub denominator : ℕ

-- 2 ^ 52 and 2 ^ 53: a mantissa lies between them.
abbrev least_mantissa : ℕ
least_mantissa = 4503599627370496

abbrev mantissa_end : ℕ
mantissa_end = 9007199254740992

-- The nearest whole number, and the even one where two are as near.
abbrev round_half_even : ℕ → ℕ → ℕ
round_half_even n d =
    let q = n / d in
    let rest = n % d * 2 in if ltb d rest || ((rest == d) && (q % 2 == 1)) then suc q else q

-- The scales that bring n / d between the two; fuel for the 1023 steps that a double has.
abbrev scale_up : ℕ → ℕ → ℕ → ℕ
scale_up zero n d = 1
scale_up (suc fuel) n d = elim (leb (least_mantissa * d) n) [
  | true ↦ 1
  | false ↦ 2 * scale_up fuel (n * 2) d
]

abbrev scale_down : ℕ → ℕ → ℕ → ℕ
scale_down zero n d = 1
scale_down (suc fuel) n d = elim (ltb n (mantissa_end * d)) [
  | true ↦ 1
  | false ↦ 2 * scale_down fuel n (d * 2)
]

-- The double that is nearest to n / d.
unfoldable pub nearest : ℕ → ℕ → Float
nearest n d =
    let up = scale_up 1023 n d in
    let down = scale_down 1023 n d in
    if n == 0
    then record { numerator = 0; denominator = 1 }
    else record { numerator = round_half_even (n * up) (d * down) * down; denominator = up }

-- The quotient of two floats.
unfoldable pub divide : Float → Float → Float
unfolding nearest
divide x y = nearest (x.numerator * y.denominator) (x.denominator * y.numerator)

-- int(x)
abbrev pub truncated : Float → ℕ
truncated x = x.numerator / x.denominator
