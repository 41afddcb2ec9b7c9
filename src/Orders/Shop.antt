-- ===== src/Orders/Shop.antt =====
-- A store with two orders, for the tests.
use Prim.Native.String.{count, ◌∷◌ as char_cons}
use text.Mathlib.TextLemmas.{length-nil, length-cons}
use gokit_services.Common.{ℕ, zero, suc, ◌≡◌, refl, ◌∙◌, sym, ap, String, [], ◌∷◌, arith}
use gokit_services.Common.Int.{pos}
use gokit_services.Common.Assoc.{lookup}
use gokit_services.Orders.{Order, Item, pending, confirmed}
use gokit_services.Orders.Memory.{InMemoryStore}
use gokit_services.Orders.Memory.Invariant.{Inv, IsInjective}

-- Names by counting strokes.
abbrev pub tally : ℕ → String
tally zero = ""
tally (suc n) = char_cons "i" (tally n)

pub count-tally : (n : ℕ) → count (tally n) ≡ n
count-tally zero = length-nil
count-tally (suc n) = length-cons "i" (tally n) ∙ ap suc (count-tally n)

pub tally-IsInjective : IsInjective tally
tally-IsInjective i j e = sym (count-tally i) ∙ (ap count e ∙ count-tally j)

abbrev pub pen : Item
pen = record { sku = "pen"; quantity = pos 2 }

-- Two orders, made at 10 and 20, the first of them confirmed at 30.
abbrev pub anns : Order
anns = record {
  id = "i";
  customer_id = "ann";
  items = pen ∷ [];
  status = confirmed;
  created_at = 10;
  updated_at = 30;
}

abbrev pub bobs : Order
bobs = record {
  id = "ii";
  customer_id = "bob";
  items = pen ∷ [];
  status = pending;
  created_at = 20;
  updated_at = 20;
}

abbrev pub shop : InMemoryStore
shop = record { orders = ("i", anns) ∷ ("ii", bobs) ∷ []; next_id = 2 }

pub shop-Inv : Inv tally shop
unfolding lookup
shop-Inv = record {
  distinct = (refl, (refl, tt));
  named =
      ((1, omega arith, omega arith, refl), refl, ((2, omega arith, omega arith, refl), refl, tt));
}
