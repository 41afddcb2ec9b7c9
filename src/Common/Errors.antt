-- ===== src/Common/Errors.antt =====
-- Go's `error` values. A nil error is `none`; a value-and-error pair is a `Result`.
use Prim.Native.Nat.{ℕ}
use Prim.Native.String.{String}
use mathlib.Core.Path.{◌≡◌, refl}
use mathlib.Core.Logic.{◌⊎◌, inl, inr}
use mathlib.Core.Bool.{Bool, true, false, ◌||◌}
use mathlib.Core.Option.{Option, none, some}
use mathlib.Core.List.{List, []}

-- An argument of a `%d`, `%s` or `%v` verb.
pub data Arg : Type 0 where
  num : ℕ → Arg
  text : String → Arg

-- `foreign n` is an error that code outside the repository made. `errorf` is `errors.New` or
-- `fmt.Errorf` with no `%w`; `wrap` has one `%w`, `wrap_both` two. The text is the format.
pub data Err : Type 0 where
  foreign : ℕ → Err
  ctx_canceled ctx_deadline closed_pipe server_closed no_rows order_not_found : Err
  errorf : String → List Arg → Err
  wrap : String → List Arg → Err → Err
  wrap_both : String → Err → Err → Err

-- `errors.Is(err, target)` for a target that is one of the sentinel values.
unfoldable pub errors_is : (Err → Bool) → Err → Bool
errors_is target (wrap format args e) = errors_is target e
errors_is target (wrap_both format d e) = errors_is target d || errors_is target e
errors_is target e = target e

abbrev pub is_ctx_canceled : Err → Bool
is_ctx_canceled ctx_canceled = true
is_ctx_canceled _ = false

abbrev pub is_closed_pipe : Err → Bool
is_closed_pipe closed_pipe = true
is_closed_pipe _ = false

abbrev pub is_server_closed : Err → Bool
is_server_closed server_closed = true
is_server_closed _ = false

abbrev pub is_no_rows : Err → Bool
is_no_rows no_rows = true
is_no_rows _ = false

abbrev pub is_order_not_found : Err → Bool
is_order_not_found order_not_found = true
is_order_not_found _ = false

pub data Result {ℓ} (A : Type ℓ) : Type ℓ where
  ok : A → Result A
  err : Err → Result A

pub Result-cases {ℓ} :
    {A : Type ℓ} (r : Result A) → ((a : A) × (r ≡ ok a)) ⊎ ((e : Err) × (r ≡ err e))
Result-cases (ok a) = inl (a, refl)
Result-cases (err e) = inr (e, refl)

infixl 5 ◌>>=◌
abbrev pub ◌>>=◌ {ℓ κ} : {A : Type ℓ} {B : Type κ} → Result A → (A → Result B) → Result B
ok a >>= f = f a
err e >>= f = err e

-- `if err != nil { return fmt.Errorf(format, err) }`
abbrev pub wrapped {ℓ} : {A : Type ℓ} → String → Result A → Result A
wrapped format (ok a) = ok a
wrapped format (err e) = err (wrap format [] e)

abbrev pub wrap_some : String → Option Err → Option Err
wrap_some format none = none
wrap_some format (some e) = some (wrap format [] e)
