-- ===== src/Dashboard/Accepted.antt =====
-- What the REST API makes of the form of example/orders-service/dashboard.go.
use gokit_services.Common.{
  ℕ, ◌≡◌, ◌≢◌, ◌↔◌, Bool, true, false, ◌||◌, refl, ltb, if◌then◌else◌, none, arith,
}
use gokit_services.Common.Int.{ℤ, pos, negsuc}
use gokit_services.Common.Errors.{Result, ok, err}
use gokit_services.Orders.Validation.{validate_new_order, validate_new_order_iff, InLimits}
use gokit_services.Dashboard.Forms.{Form, max_quantity, form_quantity, form_request}

replaced-InLimits :
    (b : Bool) (n : ℕ) → (b ≡ false → InLimits (pos n)) → InLimits (if b then pos 1 else pos n)
replaced-InLimits true n h = (omega arith, omega arith)
replaced-InLimits false n h = h refl

form_quantity-InLimits : (r : Result ℤ) → InLimits (form_quantity r)
unfolding form_quantity
form_quantity-InLimits (err e) = (omega arith, omega arith)
form_quantity-InLimits (ok (negsuc n)) = (omega arith, omega arith)
form_quantity-InLimits (ok (pos n)) =
    replaced-InLimits (ltb n 1 || ltb max_quantity n) n
      (λ e. (ground (arith, e), ground (arith, e)))

-- Whatever is entered as the quantity, a number or not, the order that the form asks for passes
-- `ValidateNewOrder` exactly if the customer and the SKU are not empty.
pub form_accepted :
    (f : Form)
    → let req = form_request f in
      (validate_new_order req.customer_id req.items ≡ none) ↔ ((f.customer_id ≢ "") × (f.sku ≢ ""))
unfolding form_request
form_accepted f =
    let req = form_request f in
    let (sound, complete) = validate_new_order_iff req.customer_id req.items in
    (
      λ h. let a = sound h in (a.named, a.each.0.0),
      λ (named, sku). complete (record {
        named = named;
        nonempty = omega arith;
        bounded = omega arith;
        each = ((sku, form_quantity-InLimits f.quantity), tt);
      }),
    )
