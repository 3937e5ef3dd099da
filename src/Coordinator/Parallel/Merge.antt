-- ===== src/Coordinator/Parallel/Merge.antt =====
-- internal/coordinator/merger.go. The wording of the merge prompt is left out: it is a list of sections
-- and the job that they are for. Delivery to a node, `dispatchToNode`, is an argument.
use mlx_mesh.Base.{
  ℕ, ◌+◌, Bool, false, Option, none, some, List, [], ◌∷◌, ◌++◌, String, str_eq, if◌then◌else◌,
  length, any,
}
use mlx_mesh.Coordinator.Registry.{CapabilityManifest}
use mlx_mesh.Coordinator.Router.{JobSpec}
use mlx_mesh.Coordinator.Reservations.{NodeTarget}
use mlx_mesh.Coordinator.Parallel.Json.{Fields, get, as_text, content_of}

pub record MergeInput : Type 0 where
  pub sub_task_id : String
  pub result : Fields
  pub position : String
  pub verification_passed : Bool

pub record MergedResult : Type 0 where
  pub original_job_id : String
  pub merged_output : Option Fields
  pub sub_task_count : ℕ
  pub any_verification_failures : Bool
  pub merge_node_id : String

-- A heading's number and position, and the text below it.
pub record Section : Type 0 where
  pub number : ℕ
  pub position : String
  pub content : Option String

pub data Message : Type 0 where
  user : String → Message
  merging : List Section → String → Message

-- The reply of a target to a message that is sent under a job's identifier: none for an error, and
-- `some none` for the nil map that the JSON text null is decoded to.
abbrev pub Dispatch : Type 0
Dispatch = NodeTarget → String → Message → Option (Option Fields)

-- The fingerprint of a manifest is an argument: the model of a manifest has no TLS.
unfoldable pub target_from_manifest :
    (CapabilityManifest → String) → CapabilityManifest → NodeTarget
target_from_manifest tls m = record {
  node_id = m.node_id;
  endpoint = m.reachability_endpoint;
  tls_fingerprint = tls m;
}

-- A result says that the node ran its sub-task.
unfoldable pub names_node : String → MergeInput → Bool
names_node id r = elim (as_text (get "_node_id" r.result)) [
  | none ↦ false
  | some nid ↦ str_eq nid id
]

unfoldable pub first_unused : List MergeInput → List CapabilityManifest → Option CapabilityManifest
first_unused rs [] = none
first_unused rs (n ∷ ns) =
    let rest = first_unused rs ns in if any (names_node n.node_id) rs then rest else some n

unfoldable pub select_merge_node :
    (CapabilityManifest → String) → List CapabilityManifest → List MergeInput → NodeTarget
select_merge_node tls [] rs = record { node_id = ""; endpoint = ""; tls_fingerprint = "" }
select_merge_node tls (n ∷ ns) rs = elim (first_unused rs (n ∷ ns)) [
  | some unused ↦ target_from_manifest tls unused
  | none ↦ target_from_manifest tls n
]

unfoldable pub order_inputs : List MergeInput → List MergeInput → List MergeInput
order_inputs ordered [] = ordered
order_inputs ordered (r ∷ rs) =
    order_inputs (if str_eq r.position "left" then r ∷ ordered else ordered ++ (r ∷ [])) rs

unfoldable pub sections : ℕ → List MergeInput → List Section
sections i [] = []
sections i (r ∷ rs) =
    record { number = i + 1; position = r.position; content = content_of r.result }
    ∷ sections (i + 1) rs

unfoldable pub build_merge_prompt : List MergeInput → JobSpec → Message
build_merge_prompt rs job = merging (sections 0 (order_inputs [] rs)) job.job_id

pub data MergeError : Type 0 where
  unverified : String → MergeError
  no_merge_node merge_failed : MergeError

pub data MergeOutcome : Type 0 where
  merged : MergedResult → MergeOutcome
  merge_error : MergeError → MergeOutcome

-- Gate 1: the first input that is not verified.
unfoldable pub first_unverified : List MergeInput → Option String
first_unverified [] = none
first_unverified (r ∷ rs) =
    let rest = first_unverified rs in if r.verification_passed then rest else some r.sub_task_id

unfoldable pub execute_merge : Dispatch → List MergeInput → JobSpec → NodeTarget → MergeOutcome
execute_merge dispatch inputs job target = elim (first_unverified inputs) [
  | some id ↦ merge_error (unverified id)
  | none ↦
      if str_eq target.endpoint ""
      then merge_error no_merge_node
      else elim (dispatch target job.job_id (build_merge_prompt inputs job)) [
        | none ↦ merge_error merge_failed
        | some output ↦ merged (record {
          original_job_id = job.job_id;
          merged_output = output;
          sub_task_count = length inputs;
          any_verification_failures = false;
          merge_node_id = if str_eq target.node_id "" then target.endpoint else target.node_id;
        })
      ]
]

unfoldable pub merge_split_outputs :
    Dispatch → Fields → Fields → Bool → Bool → String → String → JobSpec → NodeTarget → MergeOutcome
merge_split_outputs dispatch left right left_verified right_verified left_id right_id job target =
    execute_merge dispatch
      (record {
        sub_task_id = left_id;
        result = left;
        position = "left";
        verification_passed = left_verified;
      }
        ∷ record {
          sub_task_id = right_id;
          result = right;
          position = "right";
          verification_passed = right_verified;
        }
        ∷ [])
      job target
