-- ===== src/Dashboard/Tests.antt =====
-- The theorems on Dashboard for the orders of Shop.
use Prim.Native.String.{◌++◌ as concat, count}
use gokit_services.Common.{
  ℕ, ◌*◌, ◌/◌, ◌≡◌, refl, ap, String, str_eq, true, Option, some, if◌then◌else◌, arith,
}
use gokit_services.Orders.{Status, pending, confirmed, canceled, other}
use gokit_services.Orders.Api.{status_text}
use gokit_services.Orders.Shop.{tally, count-tally}
use gokit_services.Dashboard.{Strings}
use gokit_services.Dashboard.Panels.{is_known, IsLawful}

-- The functions of the package strings, on the names of the states.
abbrev trimmed : String → String
trimmed s =
    if str_eq s "ORDER_STATUS_PENDING"
    then "PENDING"
    else (if str_eq s "ORDER_STATUS_CONFIRMED"
        then "CONFIRMED"
        else (if str_eq s "ORDER_STATUS_CANCELED" then "CANCELED" else s))

abbrev small : String → String
small s =
    if str_eq s "PENDING"
    then "pending"
    else (if str_eq s "CONFIRMED"
        then "confirmed"
        else (if str_eq s "CANCELED" then "canceled" else s))

abbrev pub names : Strings
names = record { upper = λ s. s; lower = small; trim_prefix = λ s p. trimmed s }

names_trim :
    (s : Status)
    → is_known s ≡ true
    → trimmed (concat "ORDER_STATUS_" (status_text s)) ≡ status_text s
names_trim pending k = refl
names_trim confirmed k = refl
names_trim canceled k = refl
names_trim (other s) k = ground (arith, k)

names_keep : (s : Status) → is_known s ≡ true → trimmed (status_text s) ≡ status_text s
names_keep pending k = refl
names_keep confirmed k = refl
names_keep canceled k = refl
names_keep (other s) k = ground (arith, k)

pub names-IsLawful : IsLawful names
names-IsLawful = record {
  upper_keeps = λ s k. (refl, refl);
  trims = names_trim;
  trims_not = names_keep;
  lowers = (refl, refl, refl);
}

-- Times that are printed by one stroke for each second.
abbrev second : ℕ
second = 1_000_000_000

abbrev pub strokes : ℕ → String
strokes t = tally (t / second)

abbrev pub read_strokes : String → Option ℕ
read_strokes s = some (count s * second)

read_strokes-strokes : (t : ℕ) → read_strokes (strokes t) ≡ some (t / second * second)
read_strokes-strokes t = ap (λ n. some (n * second)) (count-tally (t / second))
