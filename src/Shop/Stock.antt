-- ===== src/Shop/Stock.antt =====
-- The stock under the loop of core/application/order/create-order.use-case.ts.
use api_neutra_v.Prelude.{
  ◌≡◌, refl, sym, ap, ◌∙◌, inl, inr, Option, none, some, String, List, [], ◌∷◌, str_eq, str_eq_iff,
  if◌then◌else◌, Bool-cases, Option-cases, arith,
}
use api_neutra_v.Prelude.Int.{ℤ, pos, ◌+ℤ◌, ◌-ℤ◌, int_laws}
use api_neutra_v.Runtime.{Result, ok, bind-of}
use api_neutra_v.Runtime.Number.{Number}
use api_neutra_v.Coupon.{CouponRepository}
use api_neutra_v.Shop.Entity.{Product, CartRepository, ProductRepository, OrderRepository}
use api_neutra_v.Shop.Cart.{CartLine}
use api_neutra_v.Shop.Order.{only_stock, take_line, deduct}

-- How much of a product the lines ask for.
abbrev pub ordered : {N : Type 0} → String → List (CartLine N) → ℤ
ordered id [] = pos 0
ordered id (l ∷ lines) =
    let rest = ordered id lines in if str_eq id l.product.id then l.amount +ℤ rest else rest

abbrev pub less : Option ℤ → ℤ → Option ℤ
less none a = none
less (some n) a = some (n -ℤ a)

abbrev pub stock_of : {N : Type 0} → Option (Product N) → Option ℤ
stock_of none = none
stock_of (some p) = some p.stock

-- What the loop relies on, for one tenant: `stock` reads the stock of a product off the store, a
-- lookup answers it, and an update of a product that is there succeeds and changes no other stock.
pub record HasStock {S N : Type 0} (products : ProductRepository S N) (tenant : String)
    (stock : String → S → Option ℤ) : Type 0 where
  pub find_lem :
      (id : String) (s : S)
      → (o : Option (Product N)) × (products.find_by_id tenant id s ≡ ok o)
        × (stock_of o ≡ stock id s)
  pub update_lem :
      (id : String) (n m : ℤ) (s : S)
      → stock id s ≡ some m
      → (p : Product N) × (s' : S) × (products.update tenant id (only_stock n) s ≡ (ok p, s'))
        × ((k : String) → stock k s' ≡ (if str_eq k id then some n else stock k s))

sub_zero : (n : ℤ) → n -ℤ pos 0 ≡ n
sub_zero n = grind int_laws

sub_sub : (n a b : ℤ) → (n -ℤ a) -ℤ b ≡ n -ℤ (a +ℤ b)
sub_sub n a b = grind int_laws

less-zero : (o : Option ℤ) → o ≡ less o (pos 0)
less-zero none = refl
less-zero (some n) = ap some (sym (sub_zero n))

less-none : (o : Option ℤ) (a b : ℤ) → o ≡ none → less o a ≡ less o b
less-none none a b h = refl
less-none (some n) a b h = ground arith

less-less :
    (o o₁ : Option ℤ) (p a b : ℤ) → o ≡ some p → o₁ ≡ some (p -ℤ a) → less o₁ b ≡ less o (a +ℤ b)
less-less o o₁ p a b h h₁ = rw (h, h₁) (ap some (sub_sub p a b))

module _ {S N : Type 0} (num : Number N) (carts : CartRepository S N)
    (products : ProductRepository S N) (orders : OrderRepository S N)
    (coupons : CouponRepository S N) (tenant : String) (stock : String → S → Option ℤ)
    (has : HasStock products tenant stock) where
  take_line-none :
      (l : CartLine N) (s : S)
      → products.find_by_id tenant l.product.id s ≡ ok none
      → take_line num carts products orders coupons tenant l s ≡ (ok tt, s)
  unfolding take_line
  take_line-none l s h = rw h refl

  take_line-some :
      (l : CartLine N) (s : S) {s₁ : S} (p q : Product N)
      → products.find_by_id tenant l.product.id s ≡ ok (some p)
      → products.update tenant l.product.id (only_stock (p.stock -ℤ l.amount)) s ≡ (ok q, s₁)
      → take_line num carts products orders coupons tenant l s ≡ (ok tt, s₁)
  unfolding take_line
  take_line-some l s p q h k = ground (arith, h, k)

  deduct-next :
      (l : CartLine N) (lines : List (CartLine N)) (s : S) {s₁ : S} {x : Result (Unit {0}) × S}
      → take_line num carts products orders coupons tenant l s ≡ (ok tt, s₁)
      → deduct num carts products orders coupons tenant lines s₁ ≡ x
      → deduct num carts products orders coupons tenant (l ∷ lines) s ≡ x
  unfolding deduct
  deduct-next l lines s h k =
      bind-of (take_line num carts products orders coupons tenant l)
        (λ _. deduct num carts products orders coupons tenant lines) s h
      ∙ k

  -- The loop over a cart ends without an error, and the stock of every product that exists has
  -- fallen by exactly what the lines ask for, where a product may stand in several lines.
  pub deduct_lem :
      (lines : List (CartLine N)) (s : S)
      → (s' : S) × (deduct num carts products orders coupons tenant lines s ≡ (ok tt, s'))
        × ((k : String) → stock k s' ≡ less (stock k s) (ordered k lines))
  unfolding deduct
  deduct_lem [] s = (s, refl, λ k. less-zero (stock k s))
  deduct_lem (l ∷ lines) s =
      let (o, found, agrees) = has.find_lem l.product.id s in
      elim (Option-cases o) [
        | inl missing ↦
            let (s', rest, after) = deduct_lem lines s in
            (
              s',
              deduct-next l lines s (take_line-none l s (found ∙ ap ok missing)) rest,
              λ k. elim (Bool-cases (str_eq k l.product.id)) [
                | inl e ↦ rw e (
                    after k
                    ∙ less-none (stock k s) _ _ (
                        ap (λ x. stock x s) ((str_eq_iff k l.product.id).0 e)
                        ∙ sym agrees
                        ∙ ap stock_of missing))
                | inr e ↦ rw e (after k)
              ],
            )
        | inr (p, there) ↦
            let had = sym agrees ∙ ap stock_of there in
            let (q, s₁, wrote, one) =
              has.update_lem l.product.id (p.stock -ℤ l.amount) p.stock s had in
            let (s', rest, after) = deduct_lem lines s₁ in
            (
              s',
              deduct-next l lines s (take_line-some l s p q (found ∙ ap ok there) wrote) rest,
              λ k. elim (Bool-cases (str_eq k l.product.id)) [
                | inl e ↦ rw e (
                    after k
                    ∙ less-less (stock k s) (stock k s₁) p.stock l.amount _
                        (ap (λ x. stock x s) ((str_eq_iff k l.product.id).0 e) ∙ had)
                        (one k ∙ ap (λ b. if b then some (p.stock -ℤ l.amount) else stock k s) e))
                | inr e ↦ rw e (
                    after k
                    ∙ ap (λ o. less o (ordered k lines))
                        (one k ∙ ap (λ b. if b then some (p.stock -ℤ l.amount) else stock k s) e))
              ],
            )
      ]
