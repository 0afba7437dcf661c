-- ===== src/Budget.antt =====
-- The work budget of one validation (validator/internal/validator/budget.go). A run is a sequence of
-- whole charges, each with the state of the validation's context at that moment; the interleaving
-- of the atomic accesses within concurrent charges is left out, and no sum reaches 2 ^ 63.
use sigillum_dnssec.Prelude.{
  ℕ, ◌≡◌, ◌≤◌, ◌+◌, inl, inr, refl, Bool, true, false, Option, none, some, List, [], ◌∷◌, arith,
  ltb, if◌then◌else◌, Bool-cases,
}

pub record VerifyBudget : Type 0 where
  pub limit : ℕ
  pub spent : ℕ
  pub exhausted : Bool

-- One call: the units it asks for, and whether the context is done.
pub record Call : Type 0 where
  pub units : ℕ
  pub cancelled : Bool

unfoldable pub new_verify_budget : ℕ → VerifyBudget
new_verify_budget limit = record { limit = limit; spent = 0; exhausted = false }

-- `true` where the charge is granted.
unfoldable pub charge : Call → VerifyBudget → Bool × VerifyBudget
charge call b =
    let total = b.spent + call.units in
    if call.cancelled
    then (false, record b { exhausted = true })
    else if b.exhausted
    then (false, b)
    else if ltb b.limit total
    then (false, record b { spent = total; exhausted = true })
    else (true, record b { spent = total })

-- A nil budget is unbounded.
unfoldable pub charge_shared : Call → Option VerifyBudget → Bool × Option VerifyBudget
unfolding charge
charge_shared call none = (true, none)
charge_shared call (some b) = ((charge call b).0, some (charge call b).1)

unfoldable pub spent_of : Option VerifyBudget → ℕ
spent_of none = 0
spent_of (some b) = b.spent

-- The granted units of a sequence of charges.
unfoldable pub granted : List Call → VerifyBudget → ℕ
unfolding charge
granted [] b = 0
granted (call ∷ calls) b =
    (if (charge call b).0 then call.units else 0) + granted calls (charge call b).1

exhausted_grants : (calls : List Call) (b : VerifyBudget) → b.exhausted ≡ true → granted calls b ≡ 0
unfolding granted charge
exhausted_grants [] b h = refl
exhausted_grants (call ∷ calls) b h = ground (arith, h, exhausted_grants calls (charge call b).1)

granted_from :
    (calls : List Call) (b : VerifyBudget) → b.spent ≤ b.limit → b.spent + granted calls b ≤ b.limit
unfolding granted charge
granted_from [] b h = omega (arith, h)
granted_from (call ∷ calls) b h = elim (Bool-cases (charge call b).0) [
  | inl fits ↦ ground (arith, fits, h, granted_from calls (charge call b).1)
  | inr refused ↦ ground (arith, refused, h, exhausted_grants calls (charge call b).1)
]

-- The units that a budget grants to a sequence of charges, whatever they ask for and whenever the
-- context is cancelled, never exceed its limit in total; and after a charge that was refused, in
-- any state of a budget, none is granted again.
pub budget_bounded :
    (limit : ℕ) (calls later : List Call) (call : Call) (b : VerifyBudget)
    → (charge call b).0 ≡ false
    → (granted calls (new_verify_budget limit) ≤ limit) × (granted later (charge call b).1 ≡ 0)
unfolding new_verify_budget charge
budget_bounded limit calls later call b refused = (
  omega (
    arith,
    granted_from calls (record { limit = limit; spent = 0; exhausted = false }) (omega arith),
  ),
  exhausted_grants later (charge call b).1 (ground (arith, refused)),
)
