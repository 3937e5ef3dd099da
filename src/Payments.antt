-- ===== src/Payments.antt =====
-- The money path of cmd/coordinator/main.go: how a served job moves credits between the accounts.
-- `wallet.Manager.deviceLinks` and the `nodeUsers` map are dictionaries from a node to an account.
-- Each CreditAccount and DebitAccount has the outcome of its write as an argument; their errors are
-- dropped, as in the source.
pub mod Conservation
mod Tests
use Prim.Native.String.{◌++◌ as append}
use mlx_mesh.Base.{
  ℕ, ◌+◌, ◌*◌, ◌&&◌, not, Bool, true, false, Option, none, some, List, [], ◌∷◌, String, str_eq, ltb,
  leb, if◌then◌else◌,
}
use mlx_mesh.Base.Int.{ℤ, pos, negsuc, ◌-ℤ◌, ltb_ℤ}
use mlx_mesh.Base.Dict.{Dict, lookup, insert}
use mlx_mesh.Settlement.Types.{earned_contrib, CreditEntry, Ledger, TimeText}
use mlx_mesh.Settlement.Ledger.Totals.{get_balance}
use mlx_mesh.Settlement.Ledger.Operations.{credit_account, debit_account}
use mlx_mesh.Economics.{
  Lane, fast, background, Ratio, provider_reward, consumer_cost_with_activity_discount,
  coordination_reward,
}

abbrev pub treasury_account : String
treasury_account = "oim-treasury"

-- An amount of ten-thousandths in millionths.
abbrev pub credits : ℕ → ℤ
credits n = pos (100 * n)

unfoldable pub earning : ℕ → String → ℤ → String → CreditEntry
earning now account amount source = record {
  user_id = account;
  origin = earned_contrib;
  amount = amount;
  granted_or_earned_at = now;
  source_reference = source;
}

-- `resolveEarningsAccount`: a signed wallet link, else the self-declared user, else the node itself.
unfoldable pub resolve_earnings_account : Dict String → Dict String → String → String
resolve_earnings_account links node_users node = elim (lookup node links) [
  | some account ↦ account
  | none ↦ elim (lookup node node_users) [ some account ↦ account | none ↦ node ]
]

-- `margin := consumerCharge - reward`, never below zero.
unfoldable pub margin_of : ℤ → ℤ → ℤ
margin_of charge reward =
    let margin = charge -ℤ reward in if ltb_ℤ margin (pos 0) then pos 0 else margin

-- The outcome of a settled job.
pub record Settled : Type 0 where
  pub ledger : Ledger
  pub credited_jobs : Dict (Unit {0})
  pub debited : Bool

module _ (tx : TimeText) (now : ℕ) where
  -- `creditNodeEarning`; `simulated` is the flag of the manifest, if the node is registered.
  unfoldable pub credit_node_earning :
      Bool
      → Bool
      → Ledger
      → Dict String
      → Dict String
      → Option Bool
      → String
      → String
      → Lane
      → String
      → ℤ
      → ℤ
      → Ledger
  credit_node_earning exec exec' l links node_users simulated node job lane sensitivity tokens
        charge =
      let account = resolve_earnings_account links node_users node in
      let reward = credits (provider_reward lane sensitivity tokens) in
      let margin = margin_of charge reward in
      let paid = (credit_account tx exec l (earning now account reward job)).0 in
      let banked =
        (credit_account tx exec' paid
          (earning now treasury_account margin (append job "-margin"))).0 in
      elim simulated [ some true ↦ l | _ ↦ if ltb_ℤ (pos 0) margin then banked else paid ]

  -- In the buffered fast-lane handler: `creditedJobs.LoadOrStore`, and the credits of a job that was
  -- not there.
  unfoldable pub credit_once :
      Bool
      → Bool
      → Ledger
      → Dict (Unit {0})
      → Dict String
      → Dict String
      → Option Bool
      → String
      → String
      → String
      → ℤ
      → ℤ
      → Ledger × Dict (Unit {0})
  credit_once exec exec' l done links node_users simulated node job sensitivity tokens charge =
      let earned =
        credit_node_earning exec exec' l links node_users simulated node job fast sensitivity tokens
          charge in
      if not (str_eq node "") && ltb_ℤ (pos 0) tokens
      then elim (lookup job done) [ some _ ↦ (l, done) | none ↦ (earned, insert job tt done) ]
      else (l, done)

  -- The end of that handler: one price for the credits and for the debit.
  unfoldable pub settle_fast_lane :
      Bool
      → Bool
      → Bool
      → Ledger
      → Dict (Unit {0})
      → Dict String
      → Dict String
      → Option Bool
      → String
      → String
      → String
      → String
      → ℤ
      → Ratio
      → Settled
  settle_fast_lane exec exec' exec'' l done links node_users simulated node job user sensitivity
        tokens pct =
      let charge = credits (consumer_cost_with_activity_discount fast sensitivity tokens pct) in
      let (l', done') =
        credit_once exec exec' l done links node_users simulated node job sensitivity tokens
          charge in
      let (l'', paid) = debit_account tx exec'' now l' user charge job in
      if str_eq user ""
      then record { ledger = l'; credited_jobs = done'; debited = false }
      else record { ledger = l''; credited_jobs = done'; debited = paid }

  -- `creditPointerHost`, from the point where the host's pointer has been counted and its account is
  -- known: the reward is minted, and the treasury is charged for it only if it can pay.
  unfoldable pub reward_pointer_host : Bool → Bool → Ledger → String → String → Ledger
  reward_pointer_host exec exec' l account job =
      let reward = credits (coordination_reward (pos 1)) in
      let source = append job "-coord" in
      let l' = (credit_account tx exec l (earning now account reward source)).0 in
      if ltb_ℤ (get_balance l' treasury_account).total reward
      then l'
      else (debit_account tx exec' now l' treasury_account reward source).0

  -- `creditAvailabilityReward`: minted with no debit.
  unfoldable pub credit_availability_reward :
      Bool → Ledger → Dict String → Dict String → String → String → ℤ → Ledger × Bool
  credit_availability_reward exec l links node_users node job tokens =
      let reward = provider_reward background "low" tokens in
      let account = resolve_earnings_account links node_users node in
      if leb reward 0
      then (l, false)
      else ((credit_account tx exec l (earning now account (credits reward) job)).0, true)
