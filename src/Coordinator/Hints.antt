-- ===== src/Coordinator/Hints.antt =====
-- internal/coordinator/hintvalidator.go: how far a client's own classification of its job counts.
-- Confidence and accuracy are millionths; a weight is in units of 10^-16, in which every product of the
-- factors is exact. The version is its bytes.
pub mod Escalation
mod Tests
use mlx_mesh.Base.{
  ℕ, ◌+◌, ◌-◌, ◌*◌, Bool, true, false, Option, none, some, List, [], ◌∷◌, String, str_eq, ltb, leb,
  ◌==◌, ◌&&◌, ◌||◌, not, if◌then◌else◌,
}

pub record RouterHint : Type 0 where
  pub job_type : String
  pub sensitivity_tier : String
  pub confidence : ℕ
  pub router_version : List ℕ
  pub is_from_ml_model : Bool

abbrev pub current_router_version_number : ℕ
current_router_version_number = 1

abbrev pub max_int : ℕ
max_int = 9223372036854775807

-- The value of the digits that end a text; none if it ends in no digit.
unfoldable pub scan_digits : Option ℕ → List ℕ → Option ℕ
scan_digits run [] = run
scan_digits run (c ∷ cs) =
    scan_digits
      (if leb 48 c && leb c 57
        then some ((elim run [ none ↦ 0 | some n ↦ n ]) * 10 + (c - 48))
        else none)
      cs

unfoldable pub trailing_int : List ℕ → Option ℕ
trailing_int s = elim (scan_digits none s) [
  | none ↦ none
  | some n ↦ if ltb max_int n then none else some n
]

-- In tenths. A version that is two or more behind would have 4; no number of the scan is.
unfoldable pub version_factor : List ℕ → ℕ
version_factor version = elim (trailing_int version) [
  | none ↦ 2
  | some n ↦
      if leb current_router_version_number n
      then 10
      else if n + 1 == current_router_version_number
      then 8
      else 4
]

-- `clamp01(1.25*acc - 0.325)`, in units of 10^-8.
unfoldable pub history_factor : ℕ → ℕ
history_factor acc = let v : ℕ = 125 * acc - 32500000 in if ltb 100000000 v then 100000000 else v

-- The store answers with the accuracy of a requester that has a history; there may be no store.
abbrev pub HintAccuracyStore : Type 0
HintAccuracyStore = String → Option ℕ

abbrev pub weight_unit : ℕ
weight_unit = 10000000000000000

unfoldable pub compute_hint_weight : String → Option RouterHint → Option HintAccuracyStore → ℕ
compute_hint_weight requester_id none store = 0
compute_hint_weight requester_id (some hint) none = 0
compute_hint_weight requester_id (some hint) (some store) = elim (store requester_id) [
  | none ↦ 0
  | some acc ↦
      (let conf_factor : ℕ = if ltb 1000000 hint.confidence then 1000000 else hint.confidence in
        let ml_factor : ℕ = if hint.is_from_ml_model then 10 else 7 in
        let w : ℕ =
          history_factor acc * version_factor hint.router_version * conf_factor * ml_factor in
        if ltb hint.confidence 500000
        then 0
        else if ltb 9500000000000000 w
        then 9500000000000000
        else w)
]

unfoldable pub tier_rank : String → ℕ
tier_rank t =
    if str_eq t "low"
    then 1
    else if str_eq t "moderate"
    then 2
    else if str_eq t "high_requires_attestation"
    then 3
    else 0

unfoldable pub max_tier : String → String → String
max_tier a b = if leb (tier_rank b) (tier_rank a) then a else b

unfoldable pub validate_sensitivity : String → String → String → ℕ → String
validate_sensitivity hinted coordinator override hint_weight =
    if not (str_eq override "")
    then max_tier override coordinator
    else if not (str_eq hinted "")
        && (ltb (tier_rank coordinator) (tier_rank hinted) && ltb 7000000000000000 hint_weight)
    then hinted
    else coordinator

unfoldable pub should_reclassify : Bool → ℕ → String → String → Bool
should_reclassify hint_present hint_weight hinted_sensitivity hinted_job_type =
    if not hint_present
    then true
    else if ltb hint_weight 3000000000000000
    then true
    else if str_eq hinted_sensitivity "high_requires_attestation"
    then true
    else if str_eq hinted_job_type "" || str_eq hinted_job_type "unknown"
    then true
    else if leb 7000000000000000 hint_weight
        && (str_eq hinted_sensitivity "low" || str_eq hinted_sensitivity "moderate")
    then false
    else true

pub record Routing : Type 0 where
  pub effective : String
  pub reclassified : Bool
  pub weight : ℕ

unfoldable pub resolve_routing :
    String → Option RouterHint → String → String → Option HintAccuracyStore → Routing
resolve_routing requester_id hint override coordinator store =
    let weight = compute_hint_weight requester_id hint store in
    let sensitivity : String = elim hint [ none ↦ "" | some h ↦ h.sensitivity_tier ] in
    let job_type : String = elim hint [ none ↦ "" | some h ↦ h.job_type ] in
    let present : Bool = elim hint [ none ↦ false | some h ↦ true ] in
    record {
      effective = validate_sensitivity sensitivity coordinator override weight;
      reclassified = should_reclassify present weight sensitivity job_type;
      weight = weight;
    }
