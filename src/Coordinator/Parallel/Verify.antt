-- ===== src/Coordinator/Parallel/Verify.antt =====
-- internal/coordinator/parallelverifier.go. A tolerance is in units in which 0 is 0.
use mlx_mesh.Base.{
  ℕ, Bool, true, false, Option, none, some, List, [], ◌∷◌, ◌&&◌, not, String, str_eq, ltb, ◌==◌,
  if◌then◌else◌,
}
use mlx_mesh.Coordinator.Reservations.{NodeTarget}
use mlx_mesh.Coordinator.Parallel.Json.{Fields}
use mlx_mesh.Coordinator.Parallel.Merge.{Dispatch, Message}
use mlx_mesh.Coordinator.Parallel.Decompose.{BackgroundJob}

pub record SplitVerificationResult : Type 0 where
  pub split_id : String
  pub node_id : String
  pub output_checksum : String
  pub input_checksum : String
  pub passed : Bool

unfoldable pub verify_split_pair : SplitVerificationResult → SplitVerificationResult → ℕ → Bool
verify_split_pair left right tolerance =
    if not (tolerance == 0) then false else str_eq left.output_checksum right.output_checksum

unfoldable pub all_passed : List SplitVerificationResult → Bool
all_passed [] = true
all_passed (r ∷ rs) = r.passed && all_passed rs

pub data Rerun : Type 0 where
  no_rerun no_fallback fallback_failed : Rerun
  rerun : Option Fields → Rerun

unfoldable pub trigger_full_rerun_if_diverged :
    Dispatch → String → List SplitVerificationResult → NodeTarget → Message → Rerun
trigger_full_rerun_if_diverged dispatch job_id results target messages =
    if all_passed results
    then no_rerun
    else if str_eq target.endpoint ""
    then no_fallback
    else elim (dispatch target job_id messages) [
      | none ↦ fallback_failed
      | some result ↦ rerun result
    ]

unfoldable pub should_use_parallel_verification : BackgroundJob → ℕ → ℕ → Bool
should_use_parallel_verification job eligible_node_count estimated_input_tokens =
    if not (str_eq job.lane "background")
    then false
    else if not job.require_deterministic_output
    then false
    else if ltb estimated_input_tokens 500
    then false
    else if ltb eligible_node_count 2
    then false
    else true
