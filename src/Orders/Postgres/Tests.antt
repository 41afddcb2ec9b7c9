-- ===== src/Orders/Postgres/Tests.antt =====
-- The database of Listed, asked the same as the store in memory.
use gokit_services.Common.{refl, List, [], ◌∷◌}
use gokit_services.Common.Errors.{errors_is}
use gokit_services.Common.Assoc.{lookup, insert}
use gokit_services.Orders.Memory.{new_in_memory_store, in_memory, cancel_entries, stale_ids}
use gokit_services.Orders.Asking.{
  Request, creates, gets, lists, confirms, cancels, ask_all, AllAlike,
}
use gokit_services.Orders.Postgres
use gokit_services.Orders.Postgres.{Sql, Row, Rows, postgres_store}
use gokit_services.Orders.Postgres.Observed.{answers_alike}
use gokit_services.Orders.Shop.{tally, pen}
use gokit_services.Orders.Postgres.Listed.{Db, listed, listed-IsPostgres}

abbrev empty : Db
empty = record { entries = []; last = 0; clock = 10_000; distinct = tt }

-- Two orders are made, one is confirmed and the other goes stale; a third was never made.
abbrev requests : List Request
requests =
    creates 10 "ann" (pen ∷ [])
    ∷ creates 20 "bob" (pen ∷ [])
    ∷ confirms 30 "i"
    ∷ cancels 40 35_500
    ∷ gets 50 "ii"
    ∷ gets 60 "iii"
    ∷ lists 70
    ∷ []

answers_alike_example : AllAlike (ask_all (postgres_store listed) empty requests) (
    ask_all (in_memory tally) new_in_memory_store (
      creates 10_000 "ann" (pen ∷ [])
      ∷ creates 20_000 "bob" (pen ∷ [])
      ∷ confirms 30_000 "i"
      ∷ cancels 40_000 35_000
      ∷ gets 50 "ii"
      ∷ gets 60 "iii"
      ∷ lists 70
      ∷ []))
unfolding new_in_memory_store postgres_store Postgres.create Postgres.get Postgres.list
    Postgres.confirm_pending Postgres.cancel_stale_pending Postgres.inserted Postgres.updated
    Postgres.existing Postgres.read_one Postgres.scan_order Postgres.with_items Postgres.collect
    lookup insert cancel_entries stale_ids errors_is
answers_alike_example =
    answers_alike listed-IsPostgres requests empty new_in_memory_store
      (record { same = λ k. refl; counted = refl; distinct = tt })
      (refl, (refl, (refl, (refl, (refl, (refl, (refl, tt)))))))
