-- ===== src/Entrypoint/Options.antt =====
-- The functional options and the methods that change an entrypoint before it runs.
use mathlib.Core.List.{foldl}
use gokit_services.Common.{
  append-nil, zero, suc, ℕ, ◌<◌, ◌≡◌, ◌≢◌, sym, ap, ◌∙◌, append_assoc, List, [], ◌∷◌, ◌++◌, arith,
}
use gokit_services.Common.Int.{pos, negsuc}
use gokit_services.Entrypoint.{
  Entrypoint, Service, EntrypointOption, with_services, with_shutdown_timeout, with_logger,
  with_catch_signals, with_pre_start, with_post_start, with_pre_stop, with_post_stop, apply_option,
  defaults, new, add_service,
}

apply_option_timeout :
    (e : Entrypoint) (o : EntrypointOption)
    → 0 < e.shutdown_timeout
    → 0 < (apply_option e o).shutdown_timeout
unfolding apply_option
apply_option_timeout e (with_shutdown_timeout (pos zero)) h = h
apply_option_timeout e (with_shutdown_timeout (pos (suc n))) h = omega arith
apply_option_timeout e (with_shutdown_timeout (negsuc n)) h = h
apply_option_timeout e _ h = h

apply_all_timeout :
    (opts : List EntrypointOption) (e : Entrypoint)
    → 0 < e.shutdown_timeout
    → 0 < (foldl apply_option e opts).shutdown_timeout
apply_all_timeout [] e h = h
apply_all_timeout (o ∷ os) e h =
    apply_all_timeout os (apply_option e o) (apply_option_timeout e o h)

-- Whatever options are given, negative and zero timeouts among them, the shutdown timeout of a new
-- entrypoint is positive.
new_timeout_positive : (opts : List EntrypointOption) → 0 < (new opts).shutdown_timeout
unfolding new
new_timeout_positive opts = apply_all_timeout opts defaults (omega arith)

-- The services that a list of options registers, in order.
abbrev pub registered : List EntrypointOption → List Service
registered [] = []
registered (with_services svcs ∷ os) = svcs ++ registered os
registered (_ ∷ os) = registered os

apply_all_services :
    (opts : List EntrypointOption) (e : Entrypoint)
    → (foldl apply_option e opts).services ≡ e.services ++ registered opts
unfolding apply_option
apply_all_services [] e = sym (append-nil e.services)
apply_all_services (with_services svcs ∷ os) e =
    apply_all_services os (apply_option e (with_services svcs))
    ∙ append_assoc e.services svcs (registered os)
apply_all_services (with_shutdown_timeout (pos zero) ∷ os) e = apply_all_services os e
apply_all_services (with_shutdown_timeout (pos (suc n)) ∷ os) e =
    apply_all_services os (record e { shutdown_timeout = suc n })
apply_all_services (with_shutdown_timeout (negsuc n) ∷ os) e = apply_all_services os e
apply_all_services (o ∷ os) e = apply_all_services os (apply_option e o)

-- The services of an entrypoint are those of its `WithServices` options in the order given, whatever
-- options stand between them, and then those that `AddService` adds.
add_service-new :
    (opts : List EntrypointOption) (svcs : List Service)
    → (add_service (new opts) svcs).services ≡ registered opts ++ svcs
unfolding add_service new defaults
add_service-new opts svcs = ap (λ l. l ++ svcs) (apply_all_services opts defaults)

-- Which setting an option changes.
abbrev pub setting : EntrypointOption → ℕ
setting (with_services s) = 0
setting (with_shutdown_timeout d) = 1
setting (with_logger l) = 2
setting (with_catch_signals s) = 3
setting (with_pre_start h) = 4
setting (with_post_start h) = 5
setting (with_pre_stop h) = 6
setting (with_post_stop h) = 7

-- Options for different settings may be given in either order.
apply_option_comm :
    (e : Entrypoint) (a b : EntrypointOption)
    → setting a ≢ setting b
    → apply_option (apply_option e a) b ≡ apply_option (apply_option e b) a
unfolding apply_option
apply_option_comm e a b h = ground arith
