-- ===== src/Payments/Tests.antt =====
-- A job settled at concrete books.
use mlx_mesh.Base.Dict.{lookup}
use mlx_mesh.Base.{◌⊎◌, ◌≢◌, none, false, ◌≡◌, true, false, some, [], if◌then◌else◌, arith}
use mlx_mesh.Base.Int.{pos, ◌+ℤ◌, ◌-ℤ◌}
use mlx_mesh.Settlement.Types.{Ledger, TimeText}
use mlx_mesh.Settlement.Ledger.Operations.{new_ledger, credit_account}
use mlx_mesh.Economics.{fast, Ratio, consumer_cost_with_activity_discount}
use mlx_mesh.Payments.{Settled, credits, earning, settle_fast_lane}
use mlx_mesh.Payments.Conservation.{in_circulation, is_credited, settle_fast_lane-circulation}

abbrev no_text : TimeText
no_text = record { format = λ _. ""; parse = λ _. 0 }

abbrev funded : Ledger
funded = (credit_account no_text true new_ledger (earning 0 "carol" (pos 5000000) "job-0")).0

abbrev quiet : Ratio
quiet = record { num = 20; den = 1 }

abbrev settled : Settled
settled =
    settle_fast_lane no_text 1 true true true funded [] [] [] (some false) "node-1" "job-1" "carol"
      "low" (pos 300) quiet

settle_fast_lane-circulation_example :
    let price = credits (consumer_cost_with_activity_discount fast "low" (pos 300) quiet) in
    (in_circulation settled.ledger
      ≡ in_circulation funded
        +ℤ (if is_credited [] (some false) "node-1" "job-1" (pos 300) then price else pos 0)
        -ℤ (if settled.debited then price else pos 0))
    × ((is_credited [] (some false) "node-1" "job-1" (pos 300) ≡ false)
        ⊎ (is_credited settled.credited_jobs (some false) "node-2" "job-1" (pos 300) ≡ false))
    × ((lookup {V = Unit {0}} "job-0" [] ≡ none) ⊎ (lookup "job-0" settled.credited_jobs ≢ none))
settle_fast_lane-circulation_example =
    settle_fast_lane-circulation no_text 1 true funded [] [] [] (some false) "node-1" "job-1"
      "carol" "low" (pos 300) quiet (some false) "node-2" "job-0" (pos 300) (omega arith)
