-- ===== src/Settlement/Audit/Liability.antt =====
-- The outstanding grant liability is the sum of the users' grant balances.
use mlx_mesh.Base.{
  ◌≡◌, ◌≢◌, ◌⊎◌, Option-cases, none-ne-some, refl, sym, ◌∙◌, inl, inr, none, some, List, [], ◌∷◌,
  String, str_eq, if◌then◌else◌, Bool-cases, if_same, All,
}
use mlx_mesh.Base.Int.{ℤ, pos, ◌+ℤ◌, ◌-ℤ◌, min_ℤ, max_ℤ, +ℤ-zero, zero-+ℤ, +ℤ_assoc}
use mlx_mesh.Base.Dict.{Dict, lookup, IsDistinct, All-of_lookup}
use mlx_mesh.Settlement.Types.{
  CreditOrigin, startup_grant, earned_contrib, admin_adjustment, other, CreditEntry, Ledger,
}
use mlx_mesh.Settlement.Ledger.Totals.{
  Totals, no_totals, get_balance, balance_from_totals, outstanding_grant_liability,
}
use mlx_mesh.Settlement.Ledger.Sums.{
  granted, spent, granted-cons, granted-nil, grant_part, scan_debits-sums,
}
use mlx_mesh.Settlement.Ledger.Balances.{get_balance-sums}
use mlx_mesh.Settlement.Audit.{
  grant_by, collect_grant, collect_grants, collect_debits, sum_liability,
  total_outstanding_grant_liability,
}
use mlx_mesh.Settlement.Audit.Users.{
  found, found-nil, found_new, found-some, found-update, update-IsDistinct, collect_debits-found,
  collect_debits-IsDistinct,
}

-- The users of this scan: everyone with a grant or a debit.
pub grantees : Ledger → Dict Totals
grantees l = collect_debits l.debits (collect_grants l.entries [])

pub share : Ledger → String → ℤ
share l u = (get_balance l u).grant_balance

pub shares : Ledger → Dict Totals → ℤ
shares l [] = pos 0
shares l (u ∷ us) = share l u.0 +ℤ shares l us

-- The first loop gathers what was granted, and leaves the debits alone.
collect_grant-found :
    (u : String) (o : CreditOrigin) (id : String) (x : ℤ) (m : Dict Totals)
    → found u (collect_grant o id x m) ≡ record (found u m) {
      grant = (found u m).grant +ℤ (if str_eq id u then grant_part o x else pos 0);
    }
unfolding collect_grant
collect_grant-found u startup_grant id x m = elim (Bool-cases (str_eq id u)) [
  | inl mine ↦ rw (found-update id u (grant_by x) m, mine)
  | inr not_mine ↦ rw (found-update id u (grant_by x) m, not_mine) (simp +ℤ-zero)
]
collect_grant-found u earned_contrib id x m = simp (if_same, +ℤ-zero)
collect_grant-found u admin_adjustment id x m = simp (if_same, +ℤ-zero)
collect_grant-found u (other _) id x m = simp (if_same, +ℤ-zero)

collect_grants-found :
    (u : String) (es : List CreditEntry) (m : Dict Totals)
    → found u (collect_grants es m)
      ≡ record (found u m) { grant = (found u m).grant +ℤ granted u es }
unfolding collect_grants
collect_grants-found u [] m = simp (granted-nil, +ℤ-zero)
collect_grants-found u (e ∷ es) m =
    collect_grants-found u es (collect_grant e.origin e.user_id e.amount m)
    ∙ rw (collect_grant-found u e.origin e.user_id e.amount m, granted-cons) (simp +ℤ_assoc)

grantees-found :
    (l : Ledger) (u : String)
    → found u (grantees l)
      ≡ record { grant = granted u l.entries; earned = pos 0; debited = spent u l.debits }
unfolding grantees
grantees-found l u =
    collect_debits-found u l.debits (collect_grants l.entries [])
    ∙ rw (collect_grants-found u l.entries [], found-nil u, scan_debits-sums) (simp zero-+ℤ)

collect_grant-IsDistinct :
    (o : CreditOrigin) (id : String) (x : ℤ) (m : Dict Totals)
    → IsDistinct m
    → IsDistinct (collect_grant o id x m)
unfolding collect_grant
collect_grant-IsDistinct startup_grant id x m d = update-IsDistinct id (grant_by x) m d
collect_grant-IsDistinct earned_contrib id x m d = d
collect_grant-IsDistinct admin_adjustment id x m d = d
collect_grant-IsDistinct (other _) id x m d = d

collect_grants-IsDistinct :
    (es : List CreditEntry) (m : Dict Totals) → IsDistinct m → IsDistinct (collect_grants es m)
unfolding collect_grants
collect_grants-IsDistinct [] m d = d
collect_grants-IsDistinct (e ∷ es) m d =
    collect_grants-IsDistinct es _ (collect_grant-IsDistinct e.origin e.user_id e.amount m d)

pub grantees-IsDistinct : (l : Ledger) → IsDistinct (grantees l)
unfolding grantees
grantees-IsDistinct l =
    collect_debits-IsDistinct l.debits _ (collect_grants-IsDistinct l.entries [] tt)

no_liability : outstanding_grant_liability (pos 0) (pos 0) ≡ pos 0
unfolding outstanding_grant_liability min_ℤ max_ℤ ◌-ℤ◌
no_liability = refl

-- What a user adds to the liability.
share-liability :
    (l : Ledger) (u : String)
    → outstanding_grant_liability (granted u l.entries) (spent u l.debits) ≡ share l u
unfolding share outstanding_grant_liability balance_from_totals
share-liability l u = rw (get_balance-sums l u, share)

sum_liability-shares :
    (l : Ledger) (m : Dict Totals) (acc : ℤ)
    → All (λ e. outstanding_grant_liability e.1.grant e.1.debited ≡ share l e.0) m
    → sum_liability m acc ≡ acc +ℤ shares l m
unfolding sum_liability shares
sum_liability-shares l [] acc h = sym (+ℤ-zero acc)
sum_liability-shares l (e ∷ m) acc h =
    rw (h.0, sum_liability-shares l m (acc +ℤ share l e.0) h.1)
      (+ℤ_assoc acc (share l e.0) (shares l m))

-- The liability is the sum of the grant balances that `GetBalance` shows, over users of whom no two
-- are the same and outside of whom no user has a grant balance.
pub total_outstanding_grant_liability-shares :
    (l : Ledger)
    → (total_outstanding_grant_liability l ≡ shares l (grantees l))
      × IsDistinct (grantees l)
      × ((u : String) → (lookup u (grantees l) ≢ none) ⊎ (share l u ≡ pos 0))
unfolding total_outstanding_grant_liability grantees
total_outstanding_grant_liability-shares l = (
  sum_liability-shares l (grantees l) (pos 0)
        (All-of_lookup _ (grantees l) (grantees-IsDistinct l) each)
      ∙ zero-+ℤ (shares l (grantees l)),
  grantees-IsDistinct l,
  outside,
)
  where
    of_found :
        (u : String) (s : Totals)
        → found u (grantees l) ≡ s
        → outstanding_grant_liability s.grant s.debited ≡ share l u
    of_found u s e = rw (← e, grantees-found l u) (share-liability l u)

    each :
        (u : String) (s : Totals)
        → lookup u (grantees l) ≡ some s
        → outstanding_grant_liability s.grant s.debited ≡ share l u
    each u s e = of_found u s (found-some u s (grantees l) e)

    outside : (u : String) → (lookup u (grantees l) ≢ none) ⊎ (share l u ≡ pos 0)
    outside u = elim (Option-cases (lookup u (grantees l))) [
      | inl e ↦ inr (sym (of_found u no_totals (found_new u (grantees l) e)) ∙ no_liability)
      | inr (s, e) ↦ inl (λ h. none-ne-some s (sym h ∙ e))
    ]
