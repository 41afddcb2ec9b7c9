-- ===== src/Orders/Memory/Invariant.antt =====
-- The in-memory store's invariant: distinct keys, each the issued id of its order.
use gokit_services.Common.{
  ℕ, ◌+◌, ◌%◌, ◌^◌, ◌≤◌, ◌<◌, ◌≡◌, refl, sym, ◌∙◌, String, str_eq, eq_iff, Bool-cases, Option-cases,
  inl, inr, none, some, List, [], ◌∷◌, arith,
}
use gokit_services.Common.Assoc.{Assoc, lookup, insert, lookup-insert}
use gokit_services.Orders.{Order, Item, confirmed}
use gokit_services.Orders.Memory.{
  InMemoryStore, new_in_memory_store, is_pending, confirm_pending, cancel_entries,
  cancel_stale_pending, create, created, Call, creates, confirms, cancels, step,
}
use gokit_services.Orders.Memory.Lookups.{Distinct, lookup-cancel_entries}

pub Distinct-insert {ℓ} :
    {V : Type ℓ} (k : String) (v : V) (m : Assoc V) → Distinct m → Distinct (insert k v m)
unfolding insert lookup
Distinct-insert k v [] d = (refl, tt)
Distinct-insert k v ((j, w) ∷ m) d = elim (Bool-cases (str_eq j k)) [
  | inl e ↦ rw e d
  | inr e ↦
      rw e
        (ground (arith, lookup-insert k j v m, eq_iff j k, eq_iff k j), Distinct-insert k v m d.1)
]

pub Distinct-cancel_entries :
    (now cutoff : ℕ) (m : Assoc Order) → Distinct m → Distinct (cancel_entries now cutoff m)
unfolding cancel_entries
Distinct-cancel_entries now cutoff [] d = tt
Distinct-cancel_entries now cutoff ((k, o) ∷ m) d =
    (ground (arith, lookup-cancel_entries now cutoff k m), Distinct-cancel_entries now cutoff m d.1)

module _ (format_id : ℕ → String) where
  -- The key was given out as one of the first `n` ids.
  abbrev pub IsIssued : ℕ → String → Type 0
  IsIssued n k = (i : ℕ) × (0 < i) × (i ≤ n) × (k ≡ format_id i)

  -- Every key was issued, and is the id of its order.
  abbrev pub IsNamed : ℕ → Assoc Order → Type 0
  IsNamed n [] = Unit
  IsNamed n ((k, o) ∷ m) = IsIssued n k × (k ≡ o.id) × IsNamed n m

  IsNamed-mono : (n p : ℕ) (m : Assoc Order) → n ≤ p → IsNamed n m → IsNamed p m
  IsNamed-mono n p [] h v = tt
  IsNamed-mono n p ((k, o) ∷ m) h ((i, a, b, c), e, v) =
      ((i, a, omega arith, c), e, IsNamed-mono n p m h v)

  IsNamed-insert :
      (n : ℕ) (k : String) (o : Order) (m : Assoc Order)
      → IsIssued n k
      → k ≡ o.id
      → IsNamed n m
      → IsNamed n (insert k o m)
  unfolding insert
  IsNamed-insert n k o [] i e v = (i, e, tt)
  IsNamed-insert n k o ((j, p) ∷ m) i e (a, b, v) = elim (Bool-cases (str_eq j k)) [
    | inl h ↦ rw h (a, (eq_iff j k).0 h ∙ e, v)
    | inr h ↦ rw h (a, b, IsNamed-insert n k o m i e v)
  ]

  IsNamed-cancel_entries :
      (n now cutoff : ℕ) (m : Assoc Order) → IsNamed n m → IsNamed n (cancel_entries now cutoff m)
  unfolding cancel_entries
  IsNamed-cancel_entries n now cutoff [] v = tt
  IsNamed-cancel_entries n now cutoff ((k, o) ∷ m) (a, b, v) =
      (a, ground arith, IsNamed-cancel_entries n now cutoff m v)

  IsNamed-lookup :
      (n : ℕ) (k : String) (o : Order) (m : Assoc Order)
      → IsNamed n m
      → lookup k m ≡ some o
      → IsIssued n k × (k ≡ o.id)
  unfolding lookup
  IsNamed-lookup n k o [] v h = cc
  IsNamed-lookup n k o ((j, p) ∷ m) ((i, a, b, c), e, v) h = elim (Bool-cases (str_eq j k)) [
    | inl f ↦ ((i, a, b, ground (arith, eq_iff j k)), ground (arith, eq_iff j k))
    | inr f ↦ IsNamed-lookup n k o m v (ground arith)
  ]

  -- The numbers in the ids can be read back, as those of a decimal print can.
  abbrev pub IsInjective : Type 0
  IsInjective = (i j : ℕ) → format_id i ≡ format_id j → i ≡ j

  pub lookup-fresh :
      (n j : ℕ) (m : Assoc Order)
      → IsInjective
      → IsNamed n m
      → n < j
      → lookup (format_id j) m ≡ none
  unfolding lookup
  lookup-fresh n j [] inj v h = refl
  lookup-fresh n j ((k, p) ∷ m) inj ((i, a, b, c), e, v) h =
      elim (Bool-cases (str_eq k (format_id j))) [
        | inl f ↦ absurd (omega (arith, inj i j (sym c ∙ (eq_iff k (format_id j)).0 f)))
        | inr f ↦ rw f (lookup-fresh n j m inj v h)
      ]

  -- Keys are distinct, and each is the id of its order, issued before.
  pub record Inv (s : InMemoryStore) : Type 0 where
    pub distinct : Distinct s.orders
    pub named : IsNamed s.next_id s.orders

  pub new-Inv : Inv new_in_memory_store
  unfolding new_in_memory_store
  new-Inv = record { distinct = tt; named = tt }

  pub next_small : (n : ℕ) → n + 1 < 2 ^ 64 → (n + 1) % 2 ^ 64 ≡ n + 1
  next_small n h = omega arith

  create-Inv :
      (now : ℕ) (customer : String) (items : List Item) (s : InMemoryStore)
      → s.next_id + 1 < 2 ^ 64
      → Inv s
      → Inv (create format_id now customer items s).1
  unfolding create
  create-Inv now customer items s h v =
      let up : (s.next_id + 1) % 2 ^ 64 ≡ s.next_id + 1 = next_small s.next_id h in
      let n = (s.next_id + 1) % 2 ^ 64 in
      record {
        distinct =
            Distinct-insert (format_id n) (created format_id now customer items s) s.orders
              v.distinct;
        named =
            IsNamed-insert n (format_id n) (created format_id now customer items s) s.orders
              (n, omega (arith, up), omega arith, refl) refl
              (IsNamed-mono s.next_id n s.orders (omega (arith, up)) v.named);
      }

  confirm-Inv :
      (now : ℕ) (id : String) (s : InMemoryStore) → Inv s → Inv (confirm_pending now id s).1
  unfolding confirm_pending
  confirm-Inv now id s v = elim (Option-cases (lookup id s.orders)) [
    | inl e ↦ rw (e, confirm_pending) v
    | inr (o, e) ↦
        let (issued, same) = IsNamed-lookup s.next_id id o s.orders v.named e in
        let o' : Order = record o { status = confirmed; updated_at = now } in
        rw (e, confirm_pending)
          (elim (Bool-cases (is_pending o.status)) [
            | inl p ↦ rw p (record {
              distinct = Distinct-insert id o' s.orders v.distinct;
              named = IsNamed-insert s.next_id id o' s.orders issued same v.named;
            })
            | inr p ↦ rw p v
          ])
  ]

  -- As long as the counter does not wrap, every call keeps the invariant: the map's keys are
  -- distinct, and each is the id of its order and was issued by the counter.
  pub step-Inv :
      (s : InMemoryStore) (c : Call) → s.next_id + 1 < 2 ^ 64 → Inv s → Inv (step format_id s c)
  unfolding step cancel_stale_pending
  step-Inv s (creates now customer items) h v = create-Inv now customer items s h v
  step-Inv s (confirms now id) h v = confirm-Inv now id s v
  step-Inv s (cancels now cutoff) h v = record {
    distinct = Distinct-cancel_entries now cutoff s.orders v.distinct;
    named = IsNamed-cancel_entries s.next_id now cutoff s.orders v.named;
  }

  pub next_id-step :
      (s : InMemoryStore) (c : Call)
      → s.next_id + 1 < 2 ^ 64
      → (step format_id s c).next_id ≤ s.next_id + 1
  unfolding step create confirm_pending cancel_stale_pending
  next_id-step s (creates now customer items) h = omega arith
  next_id-step s (confirms now id) h = ground arith
  next_id-step s (cancels now cutoff) h = omega arith
