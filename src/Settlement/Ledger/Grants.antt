-- ===== src/Settlement/Ledger/Grants.antt =====
-- A user gets one startup grant.
use mlx_mesh.Base.{
  ℕ, ◌+◌, ◌≤◌, ◌≡◌, ◌≢◌, refl, inl, inr, Bool, true, false, List, [], ◌∷◌, ◌++◌, String, str_eq,
  none, if◌then◌else◌, arith, All, String-cases, eq_refl, any,
}
use mlx_mesh.Settlement.Types.{startup_grant, CreditEntry, Ledger, TimeText}
use mlx_mesh.Settlement.Ledger.Operations.{
  holds_grant, credit_locked, credit_account, claim_startup_grant_once,
}
use mlx_mesh.Settlement.Ledger.Solvency.{
  credit_locked_cases, claim_cases, debit_account_cases, record_admin_action_books,
}
use mlx_mesh.Settlement.Ledger.History.{Op, credit, claim, debit, audit, step, run, GrantsByClaim}

-- How many startup grants the user holds.
pub grant_count : String → List CreditEntry → ℕ
grant_count u [] = 0
grant_count u (e ∷ es) = (if holds_grant u e then 1 else 0) + grant_count u es

abbrev pub GrantedOnce : Ledger → Type 0
GrantedOnce l = (u : String) → grant_count u l.entries ≤ 1

pub grant_count-nil : (u : String) → grant_count u [] ≡ 0
unfolding grant_count
grant_count-nil u = refl

grant_count-append :
    (u : String) (es : List CreditEntry) (e : CreditEntry)
    → grant_count u (es ++ e ∷ []) ≡ grant_count u es + (if holds_grant u e then 1 else 0)
unfolding grant_count
grant_count-append u [] e = omega arith
grant_count-append u (x ∷ es) e = rw (grant_count-append u es e) (omega arith)

grant_count_none :
    (u : String) (es : List CreditEntry) → any (holds_grant u) es ≡ false → grant_count u es ≡ 0
unfolding grant_count
grant_count_none u [] h = refl
grant_count_none u (e ∷ es) h = ground (arith, grant_count_none u es)

-- An entry that is no grant of the user leaves the count alone.
holds_grant_user :
    (u : String) (e : CreditEntry) → str_eq e.user_id u ≡ false → holds_grant u e ≡ false
unfolding holds_grant
holds_grant_user u e h = rw h

holds_grant_origin :
    (u : String) (e : CreditEntry) → e.origin ≢ startup_grant → holds_grant u e ≡ false
unfolding holds_grant
holds_grant_origin u e h = ground arith

credit_locked-GrantedOnce :
    (tx : TimeText) (exec : Bool) (l : Ledger) (e : CreditEntry)
    → ((u : String) → (if holds_grant u e then 1 else 0) + grant_count u l.entries ≤ 1)
    → GrantedOnce l
    → GrantedOnce (credit_locked tx exec l e).0
credit_locked-GrantedOnce tx exec l e room g u = elim (credit_locked_cases tx exec l e) [
  | inl (_, grown, _) ↦ rw (grown, grant_count-append u l.entries e) (omega (arith, room u))
  | inr (_, same) ↦ rw same (g u)
]

claim_room :
    (l : Ledger) (e : CreditEntry)
    → any (holds_grant e.user_id) l.entries ≡ false
    → GrantedOnce l
    → (u : String) → (if holds_grant u e then 1 else 0) + grant_count u l.entries ≤ 1
claim_room l e free g u = elim (String-cases e.user_id u) [
  | inl mine ↦ rw (grant_count_none u l.entries (rw mine at free)) (ground arith)
  | inr not_mine ↦ rw (holds_grant_user u e not_mine) (omega (arith, g u))
]

step-GrantedOnce :
    (tx : TimeText) (l : Ledger) (o : Op)
    → GrantsByClaim o
    → GrantedOnce l
    → GrantedOnce (step tx l o)
unfolding step credit_account
step-GrantedOnce tx l (credit exec e) h g =
    credit_locked-GrantedOnce tx exec l e (λ u. rw (holds_grant_origin u e h) (omega (arith, g u)))
      g
step-GrantedOnce tx l (claim exec e) h g = elim (claim_cases tx exec l e) [
  | inl (same, free) ↦ rw same (credit_locked-GrantedOnce tx exec l e (claim_room l e free g) g)
  | inr same ↦ rw same g
]
step-GrantedOnce tx l (debit exec now u x job) h g = λ v.
    elim (debit_account_cases tx exec now l u x job) [
      | inl (_, _, _, same) ↦ rw same (g v)
      | inr (_, same) ↦ rw same (g v)
    ]
step-GrantedOnce tx l (audit exec a) h g = λ v. rw ((record_admin_action_books tx exec l a).0) (g v)

-- However many claims run in whatever order, no user ever holds more than one startup grant, if
-- nobody did before and grants are credited by claims alone.
pub run-GrantedOnce :
    (tx : TimeText) (l : Ledger) (os : List Op)
    → All GrantsByClaim os
    → GrantedOnce l
    → GrantedOnce (run tx l os)
unfolding run
run-GrantedOnce tx l [] h g = g
run-GrantedOnce tx l (o ∷ os) h g =
    run-GrantedOnce tx (step tx l o) os h.1 (step-GrantedOnce tx l o h.0 g)

any-append_last :
    (p : CreditEntry → Bool) (es : List CreditEntry) (e : CreditEntry)
    → p e ≡ true
    → any p (es ++ e ∷ []) ≡ true
any-append_last p [] e h = rw h
any-append_last p (x ∷ es) e h = ground (arith, any-append_last p es e h)

holds_grant_self :
    (u : String) (e : CreditEntry)
    → e.origin ≡ startup_grant
    → u ≡ e.user_id
    → holds_grant u e ≡ true
unfolding holds_grant
holds_grant_self u e o same = rw (same, eq_refl, o)

-- What a successful claim has done.
pub claimed_entries :
    (tx : TimeText) (exec : Bool) (l : Ledger) (e : CreditEntry)
    → (claim_startup_grant_once tx exec l e).1 ≡ true
    → (claim_startup_grant_once tx exec l e).0.entries ≡ l.entries ++ e ∷ []
unfolding claim_startup_grant_once credit_locked
claimed_entries tx exec l e h = ground arith

-- A claim by a user who holds a startup grant.
claim_again :
    (tx : TimeText) (exec : Bool) (l : Ledger) (e : CreditEntry)
    → any (holds_grant e.user_id) l.entries ≡ true
    → claim_startup_grant_once tx exec l e ≡ (l, false, none, none)
unfolding claim_startup_grant_once
claim_again tx exec l e h = rw h

-- A second claim by the same user credits nothing and notifies nobody, whatever its amount.
pub claim_twice :
    (tx : TimeText) (exec exec' : Bool) (l : Ledger) (e e' : CreditEntry)
    → e.origin ≡ startup_grant
    → e'.user_id ≡ e.user_id
    → (claim_startup_grant_once tx exec l e).1 ≡ true
    → let l' = (claim_startup_grant_once tx exec l e).0 in
      claim_startup_grant_once tx exec' l' e' ≡ (l', false, none, none)
claim_twice tx exec exec' l e e' o same claimed = claim_again tx exec' _ e' (
    rw (claimed_entries tx exec l e claimed)
      (any-append_last (holds_grant e'.user_id) l.entries e (holds_grant_self e'.user_id e o same)))
