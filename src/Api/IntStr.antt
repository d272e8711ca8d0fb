-- ===== src/Api/IntStr.antt =====
-- `intstr.IntOrString` of k8s.io/apimachinery: a number, or a percentage as text. Its two operations
-- are that library's, so they are a parameter, with the documented behaviour on numbers.
use argo_rollouts.Common.{String, Bool, Option, none, some, ◌≡◌, refl}
use argo_rollouts.Common.Int.{ℤ, pos}

pub data IntOrString : Type 0 where
  int_val : ℤ → IntOrString
  str_val : String → IntOrString

pub record IntStr : Type 0 where
  -- `IntValue`
  pub int_value : IntOrString → ℤ
  pub int_value-int_val : (n : ℤ) → int_value (int_val n) ≡ n
  -- `GetValueFromIntOrPercent`: the flag asks for rounding up; `none` is an error.
  pub get_value : IntOrString → ℤ → Bool → Option ℤ
  pub get_value-int_val : (n total : ℤ) (up : Bool) → get_value (int_val n) total up ≡ some n

-- Numbers only: a text counts as 0, and as no percentage.
abbrev int_value_of : IntOrString → ℤ
int_value_of (int_val n) = n
int_value_of (str_val s) = pos 0

abbrev get_value_of : IntOrString → ℤ → Bool → Option ℤ
get_value_of (int_val n) total up = some n
get_value_of (str_val s) total up = none

abbrev pub numbers_only : IntStr
numbers_only = record {
  int_value = int_value_of;
  int_value-int_val = λ n. refl;
  get_value = get_value_of;
  get_value-int_val = λ n total up. refl;
}
