-- ===== src/Coupon/Discount.antt =====
-- The discount of a coupon lies between nothing and the order's total, and under the coupon's cap.
use api_neutra_v.Prelude.{Option, none, some, arith}
use api_neutra_v.Runtime.Number.{Number, Le, minimum, IsOrdered}
use api_neutra_v.Coupon.{
  CouponType, percent, fixed, Coupon, raw_discount, capped, calculate_discount,
}

module _ {N : Type 0} (num : Number N) (laws : IsOrdered num) where
  minimum-le : (a b : N) → Le num (minimum num a b) b
  minimum-le a b = ground (arith, laws.lt_irrefl b)

  minimum_nonneg :
      (a b : N) → Le num num.nought a → Le num num.nought b → Le num num.nought (minimum num a b)
  minimum_nonneg a b h k = ground arith

  raw_discount_nonneg :
      (t : CouponType) (v s : N)
      → Le num num.nought v
      → Le num num.nought s
      → Le num num.nought (raw_discount num t v s)
  raw_discount_nonneg percent v s h k =
      laws.mul_nonneg s (num.div v num.hundred) k (laws.div_nonneg v h)
  raw_discount_nonneg fixed v s h k = h

  -- A cap on the discount is a number of zero or more.
  abbrev pub IsNonnegOption : Option N → Type 0
  IsNonnegOption none = Unit
  IsNonnegOption (some a) = Le num num.nought a

  capped_nonneg :
      (o : Option N) (d : N)
      → IsNonnegOption o
      → Le num num.nought d
      → Le num num.nought (capped num o d)
  capped_nonneg none d h k = k
  capped_nonneg (some m) d h k = ground arith

  -- For an order of zero or more and a coupon whose value and cap are zero or more, the discount is
  -- zero or more and does not exceed the order's subtotal.
  pub calculate_discount_bounds :
      (c : Coupon N) (subtotal : N)
      → Le num num.nought c.value
      → IsNonnegOption c.max_discount_amount
      → Le num num.nought subtotal
      → Le num num.nought (calculate_discount num c subtotal)
        × Le num (calculate_discount num c subtotal) subtotal
  unfolding calculate_discount
  calculate_discount_bounds c s v m h = ground (
    arith,
    laws.lt_irrefl num.nought,
    minimum-le (capped num c.max_discount_amount (raw_discount num c.type c.value s)) s,
    minimum_nonneg (capped num c.max_discount_amount (raw_discount num c.type c.value s)) s,
    capped_nonneg c.max_discount_amount (raw_discount num c.type c.value s) m,
    raw_discount_nonneg c.type c.value s v h,
  )
