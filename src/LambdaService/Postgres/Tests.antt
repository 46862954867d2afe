-- ===== src/LambdaService/Postgres/Tests.antt =====
-- The function service over the table of functions: what comes back of a function whose timeout has
-- a fraction of a second, and of one that is saved a second time.
use mini_lambda.Common.{◌≡◌, refl, true, []}
use mini_lambda.Common.Int.{pos, ◌*ℤ◌}
use mini_lambda.Common.Maps.{Map, lookup, insert, remove}
use mini_lambda.Shared.Functions.{Function}
use mini_lambda.Shared.Functions.Interfaces.{found}
use mini_lambda.Shared.Functions.Service.Tests.{hello}
use mini_lambda.LambdaService.Postgres.{
  Row, row_of, upserted, function_of, seconds, save, find_by_id,
}

abbrev precise : Function
precise = record hello { timeout = pos 1_500_000_000; created_at = 7; updated_at = 7 }

abbrev once : Map Row
once = (save (λ t. t) true 10 precise []).0

fraction_is_cut : find_by_id true "1" once ≡ found (record precise { timeout = pos 1_000_000_000 })
unfolding save find_by_id lookup insert upserted row_of function_of seconds ◌*ℤ◌
fraction_is_cut = refl

creation_is_kept :
    find_by_id true "1" (save (λ t. t) true 20 (record hello { created_at = 15 }) once).0
    ≡ found (record hello { created_at = 7; updated_at = 20 })
unfolding save find_by_id lookup insert remove upserted row_of function_of seconds ◌*ℤ◌
creation_is_kept = refl
