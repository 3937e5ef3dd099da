-- ===== src/Settlement/Startup.antt =====
-- internal/settlement/grant_decay.go. Capacity scores and multipliers are counted in millionths.
pub mod Decay
pub mod Issue
use mlx_mesh.Base.{
  ℕ, ◌*◌, Bool, true, false, Option, none, some, List, [], ◌∷◌, String, str_eq, leb, if◌then◌else◌,
}
use Prim.Native.String.{◌++◌ as append}
use mlx_mesh.Base.Int.{pos}
use mlx_mesh.Settlement.Types.{startup_grant, CreditEntry, Ledger, TimeText}
use mlx_mesh.Settlement.Ledger.Operations.{Error, claim_startup_grant_once}

pub record CapacityThreshold : Type 0 where
  pub min_verified_capacity_score : ℕ
  pub grant_multiplier : ℕ

abbrev pub default_decay_steps : List CapacityThreshold
default_decay_steps =
    record { min_verified_capacity_score = 0; grant_multiplier = 1000000 }
    ∷ record { min_verified_capacity_score = 500000000; grant_multiplier = 500000 }
    ∷ record { min_verified_capacity_score = 2000000000; grant_multiplier = 0 }
    ∷ []

-- 100 credits; times a multiplier in millionths this is an amount in millionths.
abbrev pub base_grant_amount : ℕ
base_grant_amount = 100

-- The loop of `CurrentGrantMultiplier`: the last step met wins.
unfoldable pub multiplier_from : ℕ → ℕ → List CapacityThreshold → ℕ
multiplier_from score multiplier [] = multiplier
multiplier_from score multiplier (step ∷ steps) =
    multiplier_from score
      (if leb step.min_verified_capacity_score score then step.grant_multiplier else multiplier)
      steps

unfoldable pub current_grant_multiplier : ℕ → List CapacityThreshold → ℕ
current_grant_multiplier score steps = multiplier_from score 0 steps

pub data IssueError : Type 0 where
  user_id_required already_claimed : IssueError
  credit_failed : Error → IssueError

pub data IssueResult : Type 0 where
  issued_entry : CreditEntry → IssueResult
  issue_error : IssueError → IssueResult

unfoldable pub grant_entry :
    ℕ → String → String → (String → ℕ) → List CapacityThreshold → CreditEntry
grant_entry now user pod capacity steps = record {
  user_id = user;
  origin = startup_grant;
  amount = pos (base_grant_amount * current_grant_multiplier (capacity pod) steps);
  granted_or_earned_at = now;
  source_reference = append "startup_grant:" pod;
}

-- `IssueStartupGrant`, with `VerifiedCapacityForPod` as the argument `capacity`.
unfoldable pub issue_startup_grant :
    TimeText
    → Bool
    → ℕ
    → Ledger
    → String
    → String
    → (String → ℕ)
    → List CapacityThreshold
    → Ledger × IssueResult
issue_startup_grant tx exec now l user pod capacity steps =
    let entry = grant_entry now user pod capacity steps in
    let (l', claimed, err, _) = claim_startup_grant_once tx exec l entry in
    if str_eq user "" then (l, issue_error user_id_required) else elim err [
      | some e ↦ (l', issue_error (credit_failed e))
      | none ↦ if claimed then (l', issued_entry entry) else (l', issue_error already_claimed)
    ]
