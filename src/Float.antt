-- ===== src/Float.antt =====
-- Go's float64, as the replica arithmetic uses it: a parameter, with the IEEE facts that the proofs
-- need. A quotient of integers that is no integer differs from the nearest one by far more than the
-- rounding error at these sizes, so its ceiling and its floor are exact.
use native.Mathlib.Nat.{div-add-mod, mod-lt}
use argo_rollouts.Common.{ℕ, suc, ◌+◌, ◌-◌, ◌*◌, ◌/◌, ◌%◌, ◌≤◌, ◌<◌, ◌≡◌, refl, Bool, arith}
use argo_rollouts.Common.Int.{ℤ, pos, negsuc, pos_part, ◌-ℤ◌, ltb_ℤ, leb_ℤ, eqb_ℤ}

pub record Float64 : Type 1 where
  pub Float : Type 0
  pub of_int : ℤ → Float
  pub times : Float → Float → Float
  pub over : Float → Float → Float
  pub minus : Float → Float → Float
  -- `math.Abs`, and the fraction that `math.Modf` returns.
  pub abs : Float → Float
  pub frac : Float → Float
  -- `int32(math.Ceil(x))` and `int32(math.Floor(x))`
  pub ceil : Float → ℤ
  pub floor : Float → ℤ
  pub is_lt : Float → Float → Bool
  pub is_le : Float → Float → Bool
  pub is_eq : Float → Float → Bool
  -- The constants 0.5 and 1e-10.
  pub half : Float
  pub epsilon : Float
  pub ceil_law :
      (a b : ℕ)
      → a < 9007199254740992
      → 0 < b
      → b < 2147483648
      → a ≤ b * 2147483647
      → (c : ℕ) × (ceil (over (of_int (pos a)) (of_int (pos b))) ≡ pos c)
        × (a ≤ b * c)
        × (b * c < a + b)
  pub floor_law :
      (a b : ℕ)
      → a < 9007199254740992
      → 0 < b
      → b < 2147483648
      → a ≤ b * 2147483647
      → (c : ℕ) × (floor (over (of_int (pos a)) (of_int (pos b))) ≡ pos c)
        × (b * c ≤ a)
        × (a < b * c + b)
  pub times_law :
      (a b : ℕ)
      → a * b < 9007199254740992
      → times (of_int (pos a)) (of_int (pos b)) ≡ of_int (pos (a * b))

-- Exact fractions, with a denominator above 0, meet the laws.
pub record Fraction : Type 0 where
  pub num : ℤ
  pub den : ℕ

abbrev scale : ℤ → ℕ → ℤ
scale (pos n) k = pos (n * k)
scale (negsuc n) k = pos 0 -ℤ pos (suc n * k)

abbrev ceil_of : ℤ → ℕ → ℤ
ceil_of (pos n) d = pos ((n + (d - 1)) / d)
ceil_of (negsuc n) d = pos 0 -ℤ pos (suc n / d)

abbrev floor_of : ℤ → ℕ → ℤ
floor_of (pos n) d = pos (n / d)
floor_of (negsuc n) d = pos 0 -ℤ pos ((suc n + (d - 1)) / d)

abbrev frac_of : ℤ → ℕ → ℤ
frac_of (pos n) d = pos (n % d)
frac_of (negsuc n) d = pos 0 -ℤ pos (suc n % d)

abbrev abs_of : ℤ → ℤ
abs_of (pos n) = pos n
abs_of (negsuc n) = pos (suc n)

floor_of_law : (a b : ℕ) → 0 < b → (b * (a / b) ≤ a) × (a < b * (a / b) + b)
floor_of_law a b h = omega (arith, div-add-mod a b, mod-lt a h)

ceil_of_law : (a b : ℕ) → 0 < b → (a ≤ b * ((a + (b - 1)) / b)) × (b * ((a + (b - 1)) / b) < a + b)
ceil_of_law a b h = omega (arith, div-add-mod (a + (b - 1)) b, mod-lt (a + (b - 1)) h)

pub fraction_ceil :
    (a b : ℕ)
    → 0 < b
    → (c : ℕ) × (ceil_of (scale (pos a) 1) (1 * b) ≡ pos c) × (a ≤ b * c) × (b * c < a + b)
fraction_ceil a b h =
    let e : a * 1 ≡ a = omega arith in
    let d : 1 * b ≡ b = omega arith in
    ((a + (b - 1)) / b, rw (e, d), (ceil_of_law a b h).0, (ceil_of_law a b h).1)

pub fraction_floor :
    (a b : ℕ)
    → 0 < b
    → (c : ℕ) × (floor_of (scale (pos a) 1) (1 * b) ≡ pos c) × (b * c ≤ a) × (a < b * c + b)
fraction_floor a b h =
    let e : a * 1 ≡ a = omega arith in
    let d : 1 * b ≡ b = omega arith in
    (a / b, rw (e, d), (floor_of_law a b h).0, (floor_of_law a b h).1)

-- Division is by a positive fraction.
abbrev pub fractions : Float64
fractions = record {
  Float = Fraction;
  of_int = λ n. record { num = n; den = 1 };
  times = λ x y. record {
    num = elim y.num [ pos k ↦ scale x.num k | negsuc k ↦ pos 0 -ℤ scale x.num (suc k) ];
    den = x.den * y.den;
  };
  over = λ x y. record { num = scale x.num y.den; den = x.den * pos_part y.num };
  minus = λ x y. record { num = scale x.num y.den -ℤ scale y.num x.den; den = x.den * y.den };
  abs = λ x. record { num = abs_of x.num; den = x.den };
  frac = λ x. record { num = frac_of x.num x.den; den = x.den };
  ceil = λ x. ceil_of x.num x.den;
  floor = λ x. floor_of x.num x.den;
  is_lt = λ x y. ltb_ℤ (scale x.num y.den) (scale y.num x.den);
  is_le = λ x y. leb_ℤ (scale x.num y.den) (scale y.num x.den);
  is_eq = λ x y. eqb_ℤ (scale x.num y.den) (scale y.num x.den);
  half = record { num = pos 1; den = 2 };
  epsilon = record { num = pos 1; den = 10000000000 };
  ceil_law = λ a b _ h _ _. fraction_ceil a b h;
  floor_law = λ a b _ h _ _. fraction_floor a b h;
  times_law = λ a b _. refl;
}
