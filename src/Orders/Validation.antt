-- ===== src/Orders/Validation.antt =====
-- `ValidateNewOrder` of example/orders-service/order.go, and the orders that it lets through.
use gokit_services.Common.{
  ℕ, ◌≤◌, ◌≡◌, ◌≢◌, ◌↔◌, refl, Bool, Bool-cases, inl, inr, true, false, ◌||◌, Option, none, some,
  List, [], ◌∷◌, arith, String, str_eq, eq_iff, length, All, leb, ltb, if◌then◌else◌,
}
use gokit_services.Common.Int.{ℤ, pos, negsuc}
use gokit_services.Orders.{Item}

abbrev pub max_items_per_order : ℕ
max_items_per_order = 100

abbrev pub max_item_quantity : ℕ
max_item_quantity = 1_000_000

-- `it.Quantity < 1 || it.Quantity > MaxItemQuantity`
abbrev quantity_bad : ℤ → Bool
quantity_bad (negsuc n) = true
quantity_bad (pos n) = ltb n 1 || ltb max_item_quantity n

-- The loop over the items: the reason that the first bad item gives.
unfoldable pub check_items : List Item → Option String
check_items [] = none
check_items (it ∷ its) =
    let rest = check_items its in
    if str_eq it.sku ""
    then some "item sku is required"
    else if quantity_bad it.quantity
    then some "item quantity must be between 1 and 1000000"
    else rest

-- `none` is the source's `ok`.
unfoldable pub validate_new_order : String → List Item → Option String
unfolding check_items
validate_new_order customer_id items =
    if str_eq customer_id ""
    then some "customer_id is required"
    else if leb (length items) 0
    then some "at least one item is required"
    else if ltb max_items_per_order (length items)
    then some "too many items (max 100)"
    else check_items items

abbrev pub InLimits : ℤ → Type 0
InLimits (pos n) = (1 ≤ n) × (n ≤ 1_000_000)
InLimits (negsuc n) = ⊥

abbrev pub GoodItem : Item → Type 0
GoodItem it = (it.sku ≢ "") × InLimits it.quantity

-- An order within the limits.
pub record IsAcceptable (customer_id : String) (items : List Item) : Type 0 where
  pub named : customer_id ≢ ""
  pub nonempty : 1 ≤ length items
  pub bounded : length items ≤ 100
  pub each : All GoodItem items

quantity_sound : (q : ℤ) → quantity_bad q ≡ false → InLimits q
quantity_sound (pos n) h = ground arith
quantity_sound (negsuc n) h = cc

quantity_complete : (q : ℤ) → InLimits q → quantity_bad q ≡ false
quantity_complete (pos n) h = ground arith
quantity_complete (negsuc n) h = absurd h

str_ne : (s t : String) → str_eq s t ≡ false → s ≢ t
str_ne s t h e = cc (h, (eq_iff s t).1 e)

str_eq-false : (s t : String) → s ≢ t → str_eq s t ≡ false
str_eq-false s t h = elim (Bool-cases (str_eq s t)) [
  | inl e ↦ absurd (h ((eq_iff s t).0 e))
  | inr e ↦ e
]

check_items_sound : (items : List Item) → check_items items ≡ none → All GoodItem items
unfolding check_items
check_items_sound [] h = tt
check_items_sound (it ∷ its) h = elim (Bool-cases (str_eq it.sku "")) [
  | inl e ↦ absurd (ground arith)
  | inr e ↦ elim (Bool-cases (quantity_bad it.quantity)) [
    | inl b ↦ absurd (ground arith)
    | inr b ↦
        ((str_ne it.sku "" e, quantity_sound it.quantity b), check_items_sound its (ground arith))
  ]
]

check_items_complete : (items : List Item) → All GoodItem items → check_items items ≡ none
unfolding check_items
check_items_complete [] h = refl
check_items_complete (it ∷ its) ((s, q), g) =
    rw (str_eq-false it.sku "" s, quantity_complete it.quantity q) (check_items_complete its g)

validate_sound :
    (c : String) (items : List Item)
    → validate_new_order c items ≡ none
    → (str_eq c "" ≡ false) × (1 ≤ length items) × (length items ≤ 100) × (check_items items ≡ none)
unfolding validate_new_order
validate_sound c items h = ground arith

validate_complete :
    (c : String) (items : List Item)
    → str_eq c "" ≡ false
    → 1 ≤ length items
    → length items ≤ 100
    → check_items items ≡ none
    → validate_new_order c items ≡ none
unfolding validate_new_order
validate_complete c items n l u k = ground arith

-- `ValidateNewOrder` accepts exactly the orders within the limits: a customer is named, there are 1
-- to 100 items, and each has an SKU and a quantity from 1 to 1,000,000.
pub validate_new_order_iff :
    (customer_id : String) (items : List Item)
    → (validate_new_order customer_id items ≡ none) ↔ IsAcceptable customer_id items
validate_new_order_iff c items = (
  (λ h.
      let (n, l, u, k) = validate_sound c items h in
      record {
        named = str_ne c "" n;
        nonempty = l;
        bounded = u;
        each = check_items_sound items k;
      }),
  (λ a.
      validate_complete c items (str_eq-false c "" a.named) a.nonempty a.bounded
        (check_items_complete items a.each)),
)
