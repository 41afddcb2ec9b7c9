-- ===== src/Orders/Tests.antt =====
-- The validation and the in-memory store on small concrete stores.
use gokit_services.Common.{◌≡◌, refl, ◌↔◌, false, some, none, [], ◌∷◌, arith}
use gokit_services.Common.Assoc.{lookup}
use gokit_services.Common.Errors.{ok}
use gokit_services.Orders.{confirmed}
use gokit_services.Orders.Validation.{validate_new_order, IsAcceptable, validate_new_order_iff}
use gokit_services.Orders.Memory.{confirm_pending, stale_ids, confirms, cancels, run}
use gokit_services.Orders.Memory.Lookups.{contains}
use gokit_services.Orders.Memory.Runs.{run_final, confirmed_for_good}
use gokit_services.Orders.Shop.{tally, tally-IsInjective, pen, anns, bobs, shop, shop-Inv}

validate_new_order_iff_example :
    (validate_new_order "ann" (pen ∷ []) ≡ none) ↔ IsAcceptable "ann" (pen ∷ [])
validate_new_order_iff_example = validate_new_order_iff "ann" (pen ∷ [])

run_final_example :
    lookup "i" (run tally shop (cancels 80 90 ∷ confirms 81 "i" ∷ [])).orders ≡ some anns
unfolding lookup
run_final_example =
    run_final tally shop (cancels 80 90 ∷ confirms 81 "i" ∷ []) "i" anns tally-IsInjective
      (omega arith) shop-Inv refl refl

confirmed_for_good_example :
    let t = run tally (confirm_pending 50 "ii" shop).1 (cancels 80 90 ∷ []) in
    (lookup "ii" t.orders ≡ some (record bobs { status = confirmed; updated_at = 50 }))
    × (contains "ii" (stale_ids 90 t.orders) ≡ false)
    × ((confirm_pending 99 "ii" t).0 ≡ ok false)
unfolding lookup confirm_pending
confirmed_for_good_example =
    confirmed_for_good tally shop "ii" bobs 50 99 90 (cancels 80 90 ∷ []) tally-IsInjective
      (omega arith) shop-Inv refl refl
