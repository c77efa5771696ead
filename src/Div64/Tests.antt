-- ===== src/Div64/Tests.antt =====
-- The theorems on shared/div64.c at concrete numbers.
use projet_pcsea.Common.{◌+◌, ◌-◌, ◌^◌, ◌≡◌, refl, arith}
use projet_pcsea.Common.Outcome.{ok, fault}
use projet_pcsea.Div64.{bsr_from, do_div64}
use projet_pcsea.Div64.Quotient.{do_div64_lem, do_div64-faults}

do_div64_lem_example : do_div64 9 (2 ^ 40) (2 ^ 37 + 1) ≡ ok (7, 2 ^ 37 - 7)
unfolding bsr_from
do_div64_lem_example =
    do_div64_lem 9 (2 ^ 40) (2 ^ 37 + 1) (omega arith) (omega arith) (λ e. omega arith)
      (omega arith)

do_div64-faults_example : do_div64 9 7 (2 ^ 33 - 1) ≡ fault
unfolding bsr_from
do_div64-faults_example = do_div64-faults 9 7 (2 ^ 33 - 1) (omega arith) (omega arith) refl
