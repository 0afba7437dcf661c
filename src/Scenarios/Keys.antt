-- ===== src/Scenarios/Keys.antt =====
-- Keys of a rollover (signer/internal/signer/sign.go) and a budget that runs out
-- (validator/internal/validator/budget.go).
use sigillum_dnssec.Prelude.{ℕ, ◌≡◌, ◌≤◌, refl, false, some, [], ◌∷◌}
use sigillum_dnssec.Sign.Keys.{KeyFiles, load_keys_for_signing}
use sigillum_dnssec.Sign.Keys.Laws.{IsOutcome, load_keys_for_signing-IsOutcome}
use sigillum_dnssec.Budget.{VerifyBudget, Call, charge, granted, new_verify_budget, budget_bounded}
use sigillum_dnssec.Scenarios.Data.{quiet_zone}

-- Every key is at hand and uses algorithm 13.
abbrev whole_files : KeyFiles
whole_files = record {
  ensure_live_key = λ role tag. some (record { key_tag = tag; algorithm_number = 13 });
  load_key_pair = λ role tag. some (record { key_tag = tag; algorithm_number = 13 });
  load_public_key = λ role tag. some (record { key_tag = tag; algorithm_number = 13 });
}

load_keys_for_signing-IsOutcome_example :
    IsOutcome whole_files quiet_zone (load_keys_for_signing whole_files quiet_zone)
load_keys_for_signing-IsOutcome_example = load_keys_for_signing-IsOutcome whole_files quiet_zone

abbrev verification_of : ℕ → Call
verification_of units = record { units = units; cancelled = false }

abbrev low_budget : VerifyBudget
low_budget = record { limit = 10; spent = 8; exhausted = false }

budget_bounded_example :
    (granted (verification_of 6 ∷ verification_of 6 ∷ verification_of 1 ∷ []) (new_verify_budget 10)
      ≤ 10)
    × (granted (verification_of 1 ∷ []) (charge (verification_of 5) low_budget).1 ≡ 0)
unfolding charge
budget_bounded_example =
    budget_bounded 10 (verification_of 6 ∷ verification_of 6 ∷ verification_of 1 ∷ [])
      (verification_of 1 ∷ []) (verification_of 5) low_budget refl
