-- ===== src/Runtime/Number.antt =====
-- JavaScript numbers that are no whole numbers (prices and discounts), as far as the code uses
-- them: a type with its operations, and the laws of finite IEEE values that the theorems need.
use api_neutra_v.Prelude.{
  ℕ, ◌*◌, ◌/◌, ◌-◌, ◌+◌, Bool, true, false, ◌||◌, String, ◌≡◌, ltb, if◌then◌else◌, arith,
}
use api_neutra_v.Prelude.Int.{ℤ, pos_part}

pub record Number (N : Type 0) : Type 0 where
  pub nought : N
  pub hundred : N
  pub lt : N → N → Bool
  pub add : N → N → N
  pub sub : N → N → N
  pub mul : N → N → N
  pub div : N → N → N
  pub of_int : ℤ → N
  pub show : N → String

module _ {N : Type 0} (num : Number N) where
  -- A number is true in a test if it is not zero.
  abbrev pub nonzero : N → Bool
  nonzero a = num.lt num.nought a || num.lt a num.nought

  -- `Math.min(a, b)`
  abbrev pub minimum : N → N → N
  minimum a b = if num.lt b a then b else a

  -- `a <= b` on finite values.
  abbrev pub Le : N → N → Type 0
  Le a b = num.lt b a ≡ false

  pub record IsOrdered : Type 0 where
    pub lt_irrefl : (a : N) → num.lt a a ≡ false
    pub le_of_lt : (a b : N) → num.lt a b ≡ true → Le a b
    pub mul_nonneg : (a b : N) → Le num.nought a → Le num.nought b → Le num.nought (num.mul a b)
    pub div_nonneg : (a : N) → Le num.nought a → Le num.nought (num.div a num.hundred)

-- The laws can be met: decimals with four places, a whole number of 1/10000.
abbrev pub decimal : Number ℕ
decimal = record {
  nought = 0;
  hundred = 1000000;
  lt = ltb;
  add = λ a b. a + b;
  sub = λ a b. a - b;
  mul = λ a b. a * b / 10000;
  div = λ a b. a * 10000 / b;
  of_int = λ z. pos_part z * 10000;
  show = λ _. "";
}

pub decimal-IsOrdered : IsOrdered decimal
decimal-IsOrdered = record {
  lt_irrefl = λ a. ground arith;
  le_of_lt = λ a b h. ground arith;
  mul_nonneg = λ a b h k. ground arith;
  div_nonneg = λ a h. ground arith;
}
