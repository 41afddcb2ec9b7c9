-- ===== src/Orders/Slot.antt =====
-- A cache with one key in front of the store of Shop, for the tests.
use gokit_services.Common.{
  ◌≡◌, refl, ap, ◌⊎◌, inl, inr, String, str_eq, eq_iff, true, false, Bool-cases, Option, some, none,
  List, arith, if◌then◌else◌,
}
use gokit_services.Common.Assoc.{lookup}
use gokit_services.Common.Errors.{no_rows, Result, ok, err}
use gokit_services.Orders.{Order}
use gokit_services.Orders.Memory.Lookups.{contains}
use gokit_services.Orders.Caching.{Redis, cache_key, fill}
use gokit_services.Orders.Caching.Coherence.{IsLawful, IsCoherent, IsCoherent-fill}
use gokit_services.Orders.Shop.{tally, bobs, shop}

-- A Redis with room for one key; what it stores is the order itself.
abbrev pub Slot : Type 0
Slot = Option (String × Order)

abbrev pub slot_entries : Slot → String → Option Order
slot_entries none k = none
slot_entries (some (j, o)) k = if str_eq j k then some o else none

abbrev found : Option Order → Result Order
found none = err no_rows
found (some o) = ok o

abbrev slot_del : List String → Slot → Slot
slot_del ks none = none
slot_del ks (some (j, o)) = if contains j ks then none else some (j, o)

abbrev pub slot : Redis Slot Order
slot = record {
  connected = λ c. true;
  get = λ k c. (found (slot_entries c k), c);
  set = λ k o ttl c. (none, some (k, o));
  del = λ ks c. (none, slot_del ks c);
  marshal = λ o. ok o;
  unmarshal = λ o. some o;
}

pub found_ok : (o : Option Order) (b : Order) → found o ≡ ok b → o ≡ some b
found_ok none b h = ground (arith, h)
found_ok (some o) b h = ground (arith, h)

pub slot_set :
    (k j : String) (b x : Order) (c : Slot)
    → slot_entries (some (k, b)) j ≡ some x
    → ((j ≡ k) × (x ≡ b)) ⊎ (slot_entries c j ≡ some x)
slot_set k j b x c h = ground (arith, eq_iff k j, h)

pub slot_removes :
    (ks : List String) (j : String) (c : Slot) (x : Order)
    → slot_entries (slot_del ks c) j ≡ some x
    → (contains j ks ≡ false) × (slot_entries c j ≡ some x)
slot_removes ks j none x h = ground (arith, h)
slot_removes ks j (some (k, o)) x h = elim (Bool-cases (str_eq k j)) [
  | inl e ↦
      let q : contains k ks ≡ contains j ks = ap (λ i. contains i ks) ((eq_iff k j).0 e) in
      ground (arith, e, q, h)
  | inr e ↦ ground (arith, e, h)
]

pub slot_decodes : (o b : Order) → slot.marshal o ≡ ok b → slot.unmarshal b ≡ some o
slot_decodes o b h = ground (arith, h)

abbrev pub slot-IsLawful : IsLawful slot
slot-IsLawful = record {
  entries = slot_entries;
  get_reads = λ k c b h. found_ok (slot_entries c k) b h;
  get_keeps = λ k j c b h. h;
  set_writes = λ k j b x ttl c h. slot_set k j b x c h;
  del_removes = λ ks j c x d h. slot_removes ks j c x h;
  decodes = λ o b h. slot_decodes o b h;
}

-- The cache holds order "ii".
abbrev pub warm : Slot
warm = some (cache_key "ii", bobs)

empty-IsCoherent : IsCoherent slot slot-IsLawful shop none
empty-IsCoherent = record { agrees = λ id b o h d. ground (arith, h) }

pub warm-IsCoherent : IsCoherent slot slot-IsLawful shop warm
unfolding fill lookup
warm-IsCoherent =
    IsCoherent-fill slot slot-IsLawful shop none "ii" bobs tally 9 refl empty-IsCoherent
