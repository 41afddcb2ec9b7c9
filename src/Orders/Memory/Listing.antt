-- ===== src/Orders/Memory/Listing.antt =====
-- Maps with the same content, for `List` of example/orders-service/store_memory.go: what an iteration
-- meets is the same up to the order.
use mathlib.Core.List.{Perm}
use mathlib.Core.List.Perm
use gokit_services.Common.{
  ◌≡◌, inl, inr, String, str_eq, eq_iff, eq_refl, Bool-cases, none, some, List, [], ◌∷◌, map, arith,
  if◌then◌else◌,
}
use gokit_services.Common.Assoc.{Assoc, lookup}
use gokit_services.Orders.Memory.Lookups.{Distinct}

module _ {V : Type 0} where
  abbrev remove : String → Assoc V → Assoc V
  remove k [] = []
  remove k ((j, v) ∷ m) = if str_eq j k then m else (j, v) ∷ remove k m

  lookup-remove :
      (k j : String) (m : Assoc V)
      → Distinct m
      → lookup j (remove k m) ≡ (if str_eq k j then none else lookup j m)
  unfolding lookup
  lookup-remove k j [] d = ground arith
  lookup-remove k j ((i, v) ∷ m) d =
      ground (arith, lookup-remove k j m d.1, eq_iff i k, eq_iff k j, eq_iff i j)

  remove-Distinct : (k : String) (m : Assoc V) → Distinct m → Distinct (remove k m)
  unfolding lookup
  remove-Distinct k [] d = tt
  remove-Distinct k ((i, v) ∷ m) d = elim (Bool-cases (str_eq i k)) [
    | inl e ↦ rw e (d.1)
    | inr e ↦ rw e (ground (arith, lookup-remove k i m d.1), remove-Distinct k m d.1)
  ]

  abbrev values : Assoc V → List V
  values m = map (λ e. e.1) m

  take_out :
      (k : String) (v : V) (m : Assoc V)
      → lookup k m ≡ some v
      → Perm (values m) (v ∷ values (remove k m))
  unfolding lookup
  take_out k v [] h = cc
  take_out k v ((i, w) ∷ m) h = elim (Bool-cases (str_eq i k)) [
    | inl e ↦ let same : w ≡ v = ground (arith, e, h) in rw (e, same) (Perm.refl (v ∷ values m))
    | inr e ↦
        let later : lookup k m ≡ some v = ground (arith, e, h) in
        rw e (Perm.trans (Perm.cons w (take_out k v m later)) (Perm.swap v w (values (remove k m))))
  ]

  -- Two maps that hold the same have the same values, up to the order of the entries.
  pub Distinct-Perm :
      (m n : Assoc V)
      → Distinct m
      → Distinct n
      → ((k : String) → lookup k m ≡ lookup k n)
      → Perm (map (λ e. e.1) m) (map (λ e. e.1) n)
  unfolding lookup
  Distinct-Perm [] [] c d h = Perm.refl []
  Distinct-Perm [] ((k, v) ∷ n) c d h = absurd (ground (arith, h k, eq_refl k))
  Distinct-Perm ((k, v) ∷ m) n c d h =
      let there : lookup k n ≡ some v = ground (arith, h k, eq_refl k) in
      let rest : (j : String) → lookup j m ≡ lookup j (remove k n) =
        λ j. ground (arith, h j, c.0, lookup-remove k j n d, eq_iff k j) in
      Perm.trans (Perm.cons v (Distinct-Perm m (remove k n) c.1 (remove-Distinct k n d) rest))
        (Perm.symm (take_out k v n there))
