-- ===== src/Orders/Postgres/Observed.antt =====
-- example/orders-service/store/postgres.go against example/orders-service/store_memory.go, as a
-- client of the `Store` interface sees them: PostgreSQL takes the times from its server's clock.
use gokit_services.Common.{ℕ, String, ◌≡◌, true, List, [], ◌∷◌, All}
use gokit_services.Orders.Memory.{InMemoryStore, in_memory}
use gokit_services.Orders.Asking.{
  Request, creates, gets, lists, confirms, cancels, ask, ask_all, is_settled, Alike, AllAlike,
}
use gokit_services.Orders.Postgres.{Sql, postgres_store}
use gokit_services.Orders.Postgres.Table.{micros, IsPostgres, Simulates}
use gokit_services.Orders.Postgres.Reads.{get_refines, list_refines}
use gokit_services.Orders.Postgres.Writes.{create_refines, cancel_refines}
use gokit_services.Orders.Postgres.Confirm.{confirm_refines}

module _ {D J : Type 0} {sql : Sql D J} {format_id : ℕ → String}
    (law : IsPostgres sql format_id) where
  -- The request with the times that count in PostgreSQL: those of the server.
  abbrev pub timed : D → Request → Request
  timed d (creates now customer_id items) = creates (law.clock d) customer_id items
  timed d (gets now id) = gets now id
  timed d (lists now) = lists now
  timed d (confirms now id) = confirms (law.clock d) id
  timed d (cancels now cutoff) = cancels (law.clock d) (micros cutoff)

  -- The requests, each timed when PostgreSQL gets it.
  abbrev pub all_timed : D → List Request → List Request
  all_timed d [] = []
  all_timed d (q ∷ qs) = timed d q ∷ all_timed (ask (postgres_store sql) d q).1 qs

  ask_refines :
      (q : Request) (d : D) (s : InMemoryStore)
      → Simulates law d s
      → is_settled (ask (postgres_store sql) d q).0 ≡ true
      → Alike (ask (postgres_store sql) d q).0 (ask (in_memory format_id) s (timed d q)).0
        × Simulates law (ask (postgres_store sql) d q).1 (ask (in_memory format_id) s (timed d q)).1
  unfolding postgres_store in_memory
  ask_refines (creates now customer_id items) d s v a =
      let (e, w) = create_refines law now customer_id items d s v a in (e, w)
  ask_refines (gets now id) d s v a = get_refines law now id d s v a
  ask_refines (lists now) d s v a = list_refines law now d s v a
  ask_refines (confirms now id) d s v a = confirm_refines law now id d s v a
  ask_refines (cancels now cutoff) d s v a = cancel_refines law now cutoff d s v a

  -- A client can tell the two stores apart by their clock alone: over a database whose statements do
  -- what PostgreSQL documents, and which holds what the map of the in-memory store, with distinct
  -- keys, holds, with as many ids issued, any sequence of `Create`, `Get`, `List`, `ConfirmPending`
  -- and `CancelStalePending` in which PostgreSQL gives no error but that of a missing order is
  -- answered as the in-memory store answers the same calls made at the times of the server's clock,
  -- with the cutoffs in whole microseconds, each answer in its place: the same order, the same
  -- Boolean, the same error, the same list up to its order, and the same set of canceled ids.
  pub answers_alike :
      (qs : List Request) (d : D) (s : InMemoryStore)
      → Simulates law d s
      → All (λ a. is_settled a ≡ true) (ask_all (postgres_store sql) d qs)
      → AllAlike
          (ask_all (postgres_store sql) d qs)
          (ask_all (in_memory format_id) s (all_timed d qs))
  answers_alike [] d s v a = tt
  answers_alike (q ∷ qs) d s v (first, rest) =
      let (same, w) = ask_refines q d s v first in
      (
        same,
        answers_alike qs (ask (postgres_store sql) d q).1
            (ask (in_memory format_id) s (timed d q)).1 w rest,
      )
