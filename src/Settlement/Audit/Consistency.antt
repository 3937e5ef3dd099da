-- ===== src/Settlement/Audit/Consistency.antt =====
-- When the reconciliation reports the ledger consistent.
use mlx_mesh.Base.{
  ◌≡◌, ◌↔◌, refl, sym, ◌∙◌, inl, inr, true, none, List, [], ◌∷◌, String, eq_refl, All, Option-cases,
  String-cases, cons-ne-nil, none-ne-some, length-eq-zero,
}
use mlx_mesh.Base.Int.{ℤ, ◌+ℤ◌, ◌≤ℤ◌, int_laws}
use mlx_mesh.Base.Dict.{Dict, lookup, IsDistinct}
use mlx_mesh.Settlement.Types.{Ledger, TimeText}
use mlx_mesh.Settlement.Ledger.Totals.{Totals, no_totals}
use mlx_mesh.Settlement.Ledger.Sums.{spent, totals_of-sums}
use mlx_mesh.Settlement.Ledger.Operations.{new_ledger}
use mlx_mesh.Settlement.Ledger.Solvency.{issued, run-IsSolvent, new_ledger-IsSolvent}
use mlx_mesh.Settlement.Ledger.History.{Op, run, IsNonNegative}
use mlx_mesh.Settlement.Audit.{reconcile_epsilon, anomaly_of, find_anomalies, users_of, reconcile}
use mlx_mesh.Settlement.Audit.Users.{
  found, found-nil, found-cons, found_new, users_of-found, users_of-IsDistinct,
}

-- No user of the map has an anomaly.
abbrev IsClean : Dict Totals → Type 0
IsClean m = (u : String) → anomaly_of u (found u m) ≡ none

unseen_clean : (u : String) → anomaly_of u no_totals ≡ none
unfolding anomaly_of ◌+ℤ◌
unseen_clean u = refl

IsClean-cons :
    (k : String) (s : Totals) (m : Dict Totals)
    → lookup k m ≡ none
    → IsClean ((k, s) ∷ m) ↔ ((anomaly_of k s ≡ none) × IsClean m)
IsClean-cons k s m new =
    ((λ h. (head_clean h, λ u. tail_clean h u)), λ (here, rest) u. both here rest u)
  where
    head_clean : IsClean ((k, s) ∷ m) → anomaly_of k s ≡ none
    head_clean h = rw (found-cons, eq_refl) at (h k)

    tail_clean : IsClean ((k, s) ∷ m) → IsClean m
    tail_clean h u = elim (String-cases k u) [
      | inl same ↦ rw (← same, found_new k m new) (unseen_clean k)
      | inr other_user ↦ rw (found-cons, other_user) at (h u)
    ]

    both : anomaly_of k s ≡ none → IsClean m → IsClean ((k, s) ∷ m)
    both here rest u = elim (String-cases k u) [
      | inl same ↦ rw (← same, found-cons, eq_refl) here
      | inr other_user ↦ rw (found-cons, other_user) (rest u)
    ]

find_anomalies_none : (m : Dict Totals) → IsDistinct m → (find_anomalies m ≡ []) ↔ IsClean m
unfolding find_anomalies
find_anomalies_none [] d = ((λ _ u. rw (found-nil u) (unseen_clean u)), λ _. refl)
find_anomalies_none ((k, s) ∷ m) d = elim (Option-cases (anomaly_of k s)) [
  | inl fine ↦ (
    (λ h.
        (IsClean-cons k s m d.0).1
          (fine, (find_anomalies_none m d.1).0 (rw (fine, find_anomalies) at h))),
    λ c. rw (fine, find_anomalies) ((find_anomalies_none m d.1).1 ((IsClean-cons k s m d.0).0 c).1),
  )
  | inr (a, bad) ↦ (
    (λ h. absurd (cons-ne-nil _ _ (rw (bad, find_anomalies) at h))),
    λ c. absurd (none-ne-some a (sym ((IsClean-cons k s m d.0).0 c).0 ∙ bad)),
  )
]

-- A user is flagged exactly when the debits exceed the credits by more than the tolerance.
anomaly_of-none :
    (u : String) (s : Totals)
    → (anomaly_of u s ≡ none) ↔ (s.debited ≤ℤ s.grant +ℤ s.earned +ℤ reconcile_epsilon)
unfolding anomaly_of
anomaly_of-none u s = grind int_laws

users-IsClean :
    (l : Ledger)
    → IsClean (users_of l) ↔ ((u : String) → spent u l.debits ≤ℤ issued l u +ℤ reconcile_epsilon)
users-IsClean l = (λ h u. (per_user u).0 (h u), λ h u. (per_user u).1 (h u))
  where
    per_user :
        (u : String)
        → (anomaly_of u (found u (users_of l)) ≡ none)
          ↔ (spent u l.debits ≤ℤ issued l u +ℤ reconcile_epsilon)
    per_user u = rw (users_of-found l u, totals_of-sums l u) (anomaly_of-none u _)

-- The report is consistent exactly when no user has spent more than was issued to them and the
-- rounding tolerance together: no anomaly is missed and none is made up.
pub reconcile-consistent :
    (l : Ledger)
    → ((reconcile l).consistent ≡ true)
      ↔ ((u : String) → spent u l.debits ≤ℤ issued l u +ℤ reconcile_epsilon)
unfolding reconcile
reconcile-consistent l =
    let empty = find_anomalies_none (users_of l) (users_of-IsDistinct l) in
    let nil = length-eq-zero (find_anomalies (users_of l)) in
    (λ h. (users-IsClean l).0 (empty.0 (nil.0 h)), λ h. nil.1 (empty.1 ((users-IsClean l).1 h)))

-- After any sequence of operations on a new ledger, with no negative credit among them, the
-- reconciliation reports the books consistent.
pub run-consistent :
    (tx : TimeText) (os : List Op)
    → All IsNonNegative os
    → (reconcile (run tx new_ledger os)).consistent ≡ true
run-consistent tx os h =
    (reconcile-consistent (run tx new_ledger os)).1
      λ u. slack _ _ (run-IsSolvent tx new_ledger os h new_ledger-IsSolvent u)
  where
    slack : (a b : ℤ) → a ≤ℤ b → a ≤ℤ b +ℤ reconcile_epsilon
    slack a b h = omega int_laws
