-- ===== src/Math64/Tests.antt =====
-- The theorems on user/tests/lib/math.c at concrete numbers.
use projet_pcsea.Common.{◌+◌, ◌^◌, ◌≡◌, arith}
use projet_pcsea.Common.Outcome.{ok}
use projet_pcsea.Math64.{div64, mul64}
use projet_pcsea.Math64.Div.{div64_lem}
use projet_pcsea.Math64.Mul.{mul64_lem}

div64_lem_example : div64 64 18446744073709551615 10 ≡ ok (1844674407370955161, 5)
div64_lem_example = div64_lem 0 18446744073709551615 10 (omega arith)

mul64_lem_example : mul64 (2 ^ 63 + 5) 6 ≡ 30
mul64_lem_example = mul64_lem (2 ^ 63 + 5) 6 (omega arith) (omega arith)
