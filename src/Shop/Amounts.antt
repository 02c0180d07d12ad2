-- ===== src/Shop/Amounts.antt =====
-- The stock limit of core/application/cart/add-to-cart.use-case.ts.
use api_neutra_v.Prelude.{◌≡◌, refl, inl, inr, Option, none, some, String, true, ap, arith}
use api_neutra_v.Prelude.Int.{ℤ, ◌+ℤ◌, ◌≤ℤ◌, ◌<ℤ◌, ltb_ℤ}
use api_neutra_v.Errors.Http.{http_status_from_domain_error}
use api_neutra_v.Errors.Middleware.{error_middleware}
use api_neutra_v.Runtime.{ok, UseCaseResult, outcome, answer, Refuses}
use api_neutra_v.Runtime.Number.{Number}
use api_neutra_v.Shop.Entity.{Cart, CartItem, Product, CartRepository, ProductRepository}
use api_neutra_v.Shop.Cart.{existing_item, current_qty, or_new_cart, put_item, add_to_cart}

module _ {S N : Type 0} (num : Number N) (carts : CartRepository S N)
    (products : ProductRepository S N) where
  -- What the cart holds of the product together with what is added.
  abbrev pub new_total : Cart CartItem → String → ℤ → ℤ
  new_total cart id amount = current_qty (existing_item id cart.items) +ℤ amount

  -- The product is known in the store, and the cart was found before or has just been created.
  pub record IsAdded (tenant user id : String) (amount : ℤ) (s : S) (r : UseCaseResult ℤ)
      : Type 0 where
    pub found : Option (Cart CartItem)
    pub was_found : carts.find_by_user_id_simple tenant user s ≡ ok found
    pub cart : Cart CartItem
    pub store : S
    pub opened : or_new_cart num carts tenant user found s ≡ (ok cart, store)
    pub product : Product N
    pub known : products.find_by_id tenant id store ≡ ok (some product)
    pub fits : new_total cart id amount ≤ℤ product.stock
    pub item : CartItem
    pub put :
        (put_item num carts tenant cart.id id
          (existing_item id cart.items)
          amount
          (new_total cart id amount)
          store).0
        ≡ ok item
    pub value : r.value ≡ some (new_total cart id amount)

  -- When `add_to_cart` returns, the product exists, the new total is at most its stock, that total
  -- is the result, and the repository has added the item or set its amount to the total.
  pub add_to_cart-IsAdded :
      (tenant user id : String) (amount : ℤ) (s s' : S) (r : UseCaseResult ℤ)
      → add_to_cart num carts products tenant user id amount s ≡ (ok r, s')
      → IsAdded tenant user id amount s r
  unfolding add_to_cart
  add_to_cart-IsAdded tenant user id amount s s' r h =
      elim (answer (carts.find_by_user_id_simple tenant user s)) [
        | inr (e, failed) ↦ absurd (ground (arith, failed))
        | inl (found, read) ↦ elim (outcome (or_new_cart num carts tenant user found s)) [
          | inr (e, s₁, failed) ↦ absurd (ground (arith, read, failed))
          | inl (cart, s₁, opened) ↦ elim (answer (products.find_by_id tenant id s₁)) [
            | inr (e, failed) ↦ absurd (ground (arith, read, opened, failed))
            | inl (none, known) ↦ absurd (ground (arith, read, opened, known))
            | inl (some p, known) ↦
                elim (outcome (
                  put_item num carts tenant cart.id id (existing_item id cart.items) amount
                    (new_total cart id amount) s₁)) [
                      | inr (e, s₂, failed) ↦ absurd (ground (arith, read, opened, known, failed))
                      | inl (item, s₂, put) ↦ record {
                        found = found;
                        was_found = read;
                        cart = cart;
                        store = s₁;
                        opened = opened;
                        product = p;
                        known = known;
                        fits = ground (arith, read, opened, known);
                        item = item;
                        put = ap (λ x. x.0) put;
                        value = ground (arith, read, opened, known, put);
                      }
                    ]
          ]
        ]
      ]

  -- Asking for more than the stock is answered with 422, and the store is left alone, where the
  -- user has a cart.
  pub add_to_cart_refused :
      (tenant user id : String) (amount : ℤ) (s : S) (cart : Cart CartItem) (p : Product N)
      → carts.find_by_user_id_simple tenant user s ≡ ok (some cart)
      → products.find_by_id tenant id s ≡ ok (some p)
      → p.stock <ℤ new_total cart id amount
      → Refuses 422 s (add_to_cart num carts products tenant user id amount s)
  unfolding add_to_cart error_middleware http_status_from_domain_error
  add_to_cart_refused tenant user id amount s cart p found known more =
      let over : ltb_ℤ p.stock (new_total cart id amount) ≡ true = ground (arith, more) in
      rw (found, known, over) (refl, refl)
