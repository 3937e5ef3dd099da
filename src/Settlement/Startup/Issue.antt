-- ===== src/Settlement/Startup/Issue.antt =====
-- The outcomes of a claim of a startup grant.
use mlx_mesh.Base.{ℕ, ◌≡◌, ◌∙◌, sym, refl, Bool, true, false, none, List, String, str_eq, arith}
use mlx_mesh.Settlement.Types.{startup_grant, CreditEntry, Ledger, TimeText}
use mlx_mesh.Settlement.Ledger.Operations.{claim_startup_grant_once}
use mlx_mesh.Settlement.Ledger.Grants.{claim_twice}
use mlx_mesh.Settlement.Startup.{
  CapacityThreshold, issued_entry, issue_error, already_claimed, grant_entry, issue_startup_grant,
}

module _ (tx : TimeText) (exec : Bool) (now : ℕ) (l : Ledger) (user pod : String)
    (capacity : String → ℕ) (steps : List CapacityThreshold) where
  -- What an issued grant says of the claim below it.
  issued_claim :
      (entry : CreditEntry)
      → (issue_startup_grant tx exec now l user pod capacity steps).1 ≡ issued_entry entry
      → let c = claim_startup_grant_once tx exec l (grant_entry now user pod capacity steps) in
        (c.1 ≡ true)
        × ((issue_startup_grant tx exec now l user pod capacity steps).0 ≡ c.0)
        × (str_eq user "" ≡ false)
        × (entry ≡ grant_entry now user pod capacity steps)
  unfolding issue_startup_grant
  issued_claim entry h = ground arith

  -- What follows for the outcome, if the claim finds a grant and the user has a name.
  refused_claim :
      str_eq user "" ≡ false
      → claim_startup_grant_once tx exec l (grant_entry now user pod capacity steps)
        ≡ (l, false, none, none)
      → issue_startup_grant tx exec now l user pod capacity steps ≡ (l, issue_error already_claimed)
  unfolding issue_startup_grant
  refused_claim named h = ground arith

grant_entry_fields :
    (now : ℕ) (user pod : String) (capacity : String → ℕ) (steps : List CapacityThreshold)
    → let e = grant_entry now user pod capacity steps in
      (e.user_id ≡ user) × (e.origin ≡ startup_grant)
unfolding grant_entry
grant_entry_fields now user pod capacity steps = (refl, refl)

-- After a grant has been issued to a user, every later request for one by the same user is answered
-- by `already_claimed` and leaves the ledger alone: at any time, for any pod, capacity and steps, and
-- whether or not the file could be written.
pub issue_startup_grant_once :
    (tx : TimeText) (exec : Bool) (now : ℕ) (l : Ledger) (user pod : String) (capacity : String → ℕ)
    (steps : List CapacityThreshold) (entry : CreditEntry) (exec' : Bool) (now' : ℕ) (pod' : String)
    (capacity' : String → ℕ) (steps' : List CapacityThreshold)
    → (issue_startup_grant tx exec now l user pod capacity steps).1 ≡ issued_entry entry
    → let l' = (issue_startup_grant tx exec now l user pod capacity steps).0 in
      issue_startup_grant tx exec' now' l' user pod' capacity' steps'
      ≡ (l', issue_error already_claimed)
issue_startup_grant_once tx exec now l user pod capacity steps entry exec' now' pod' capacity'
      steps' h =
    let (claimed, same, named, _) = issued_claim tx exec now l user pod capacity steps entry h in
    rw same (
      refused_claim tx exec' now' (claim_startup_grant_once tx exec l first).0 user pod' capacity'
        steps' named
        (claim_twice tx exec exec' l first second (grant_entry_fields now user pod capacity steps).1
          same_user claimed))
  where
    first : CreditEntry
    first = grant_entry now user pod capacity steps

    second : CreditEntry
    second = grant_entry now' user pod' capacity' steps'

    same_user : second.user_id ≡ first.user_id
    same_user =
        (grant_entry_fields now' user pod' capacity' steps').0
        ∙ sym (grant_entry_fields now user pod capacity steps).0
