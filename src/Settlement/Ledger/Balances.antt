-- ===== src/Settlement/Ledger/Balances.antt =====
-- What `GetBalance` shows: grants are spent first, and nothing is lost between the two parts.
use mlx_mesh.Base.{
  ℕ, ◌≡◌, ◌≢◌, refl, ◌∙◌, ◌⊎◌, inl, inr, Bool, true, false, [], ◌∷◌, ◌++◌, String, str_eq, All,
  String-cases, eq_refl, if◌then◌else◌,
}
use mlx_mesh.Base.Int.{ℤ, pos, ◌+ℤ◌, ◌-ℤ◌, ◌≤ℤ◌, min_ℤ, max_ℤ, int_laws, +ℤ-zero}
use mlx_mesh.Settlement.Types.{LedgerDebit, Balance, Ledger, TimeText}
use mlx_mesh.Settlement.Ledger.Totals.{
  balance_from_totals, get_balance, outstanding_grant_liability,
}
use mlx_mesh.Settlement.Ledger.Sums.{
  granted, earned, spent, spent-append, spent-one, totals_of-sums, granted-nonneg, earned-nonneg,
}
use mlx_mesh.Settlement.Ledger.Operations.{debit_account}
use mlx_mesh.Settlement.Ledger.Solvency.{IsSolvent, issued, debit_account_cases}

-- The split of a balance on totals that are solvent and not negative.
pub record IsGrantFirst (g e d : ℤ) (b : Balance) : Type 0 where
  pub grant_nonneg : pos 0 ≤ℤ b.grant_balance
  pub earned_nonneg : pos 0 ≤ℤ b.earned_balance
  pub adds_up : b.total ≡ b.grant_balance +ℤ b.earned_balance
  pub nothing_lost : b.total ≡ g +ℤ e -ℤ d
  -- Earnings are touched only when the grants are used up.
  pub grants_first : (b.grant_balance ≡ pos 0) ⊎ (b.earned_balance ≡ e)
  -- Debits within the grants leave the rest of them, and no more.
  pub grant_rest : (g ≤ℤ d) ⊎ (b.grant_balance ≡ g -ℤ d)
  pub liability : outstanding_grant_liability g d ≡ b.grant_balance

module _ (g e d : ℤ) (hg : pos 0 ≤ℤ g) (he : pos 0 ≤ℤ e) (hs : d ≤ℤ g +ℤ e) where
  balance_from_totals-IsGrantFirst : IsGrantFirst g e d (balance_from_totals g e d)
  unfolding balance_from_totals min_ℤ max_ℤ outstanding_grant_liability
  balance_from_totals-IsGrantFirst = record {
    grant_nonneg = grind int_laws;
    earned_nonneg = grind int_laws;
    adds_up = refl;
    nothing_lost = grind int_laws;
    grants_first = grind int_laws;
    grant_rest = grind int_laws;
    liability = refl;
  }

pub get_balance-sums :
    (l : Ledger) (u : String)
    → get_balance l u
      ≡ balance_from_totals (granted u l.entries) (earned u l.entries) (spent u l.debits)
unfolding get_balance
get_balance-sums l u = rw (totals_of-sums l u)

-- On a solvent ledger with no negative credit, the balance of a user splits what was issued minus
-- what was spent into two parts that are not negative, and takes from the earned part only when
-- nothing of the grants is left.
pub get_balance-IsGrantFirst :
    (l : Ledger) (u : String)
    → All (λ e. pos 0 ≤ℤ e.amount) l.entries
    → IsSolvent l
    → IsGrantFirst (granted u l.entries) (earned u l.entries) (spent u l.debits) (get_balance l u)
get_balance-IsGrantFirst l u h s = rw (get_balance-sums l u) (
    balance_from_totals-IsGrantFirst _ _ _ (granted-nonneg u l.entries h)
      (earned-nonneg u l.entries h) (s u))

-- The books after one more debit `d` of `user`.
module _ (l l' : Ledger) (user : String) (x : ℤ) (d : LedgerDebit) (who : d.user_id ≡ user)
    (what : d.amount ≡ x) (grown : l'.debits ≡ l.debits ++ d ∷ []) where
  spent_after :
      (u : String) → spent u l'.debits ≡ spent u l.debits +ℤ (if str_eq user u then x else pos 0)
  spent_after u = rw (grown, spent-append u l.debits (d ∷ []), spent-one u d, who, what)

  others_after :
      l'.entries ≡ l.entries
      → (u : String) → str_eq user u ≡ false
      → get_balance l' u ≡ get_balance l u
  others_after same u h =
      rw (get_balance-sums l' u, get_balance-sums l u, same, spent_after u, h) (rw +ℤ-zero)

-- The same where the balance covered the debit.
module _ (l l' : Ledger) (user : String) (x : ℤ) (d : LedgerDebit)
    (nonneg : All (λ e. pos 0 ≤ℤ e.amount) l.entries) (solvent : IsSolvent l)
    (who : d.user_id ≡ user) (what : d.amount ≡ x)
    (covered : spent user l.debits +ℤ x ≤ℤ issued l user) (grown : l'.debits ≡ l.debits ++ d ∷ [])
    (same : l'.entries ≡ l.entries) where
  paid_spent : spent user l'.debits ≡ spent user l.debits +ℤ x
  paid_spent = spent_after l l' user x d who what grown user ∙ rw (eq_refl user)

  paid_after :
      IsGrantFirst
        (granted user l.entries)
        (earned user l.entries)
        (spent user l.debits +ℤ x)
        (get_balance l' user)
  paid_after =
      rw (get_balance-sums l' user, same, paid_spent)
        (balance_from_totals-IsGrantFirst _ _ _ (granted-nonneg user l.entries nonneg)
          (earned-nonneg user l.entries nonneg) covered)

  paid_total : (get_balance l' user).total ≡ (get_balance l user).total -ℤ x
  paid_total =
      rw (paid_after.nothing_lost, (get_balance-IsGrantFirst l user nonneg solvent).nothing_lost)
        (omega int_laws)

  paid_nonneg : pos 0 ≤ℤ (get_balance l' user).total
  paid_nonneg = rw paid_after.nothing_lost (omega int_laws)

-- After an accepted debit the balance of the payer is lower by exactly the amount, and not negative.
pub debit_account_pays :
    (tx : TimeText) (exec : Bool) (now : ℕ) (l : Ledger) (user : String) (x : ℤ) (job : String)
    → All (λ e. pos 0 ≤ℤ e.amount) l.entries
    → IsSolvent l
    → (debit_account tx exec now l user x job).1 ≡ true
    → let l' = (debit_account tx exec now l user x job).0 in
      ((get_balance l' user).total ≡ (get_balance l user).total -ℤ x)
      × (pos 0 ≤ℤ (get_balance l' user).total)
debit_account_pays tx exec now l user x job h s paid =
    elim (debit_account_cases tx exec now l user x job) [
      | inl (_, covered, grown, same) ↦ (
        paid_total l _ user x _ h s refl refl covered grown same,
        paid_nonneg l _ user x _ h s refl refl covered grown same,
      )
      | inr (refused, _) ↦ cc
    ]

-- A debit, accepted or refused, leaves the balance of every other user as it was.
pub debit_account_others :
    (tx : TimeText) (exec : Bool) (now : ℕ) (l : Ledger) (user u : String) (x : ℤ) (job : String)
    → user ≢ u
    → get_balance (debit_account tx exec now l user x job).0 u ≡ get_balance l u
debit_account_others tx exec now l user u x job ne =
    elim (debit_account_cases tx exec now l user x job) [
      | inl (_, covered, grown, same) ↦
          others_after l _ user x _ refl refl grown same u
            (elim (String-cases user u) [ inl e ↦ absurd (ne e) | inr e ↦ e ])
      | inr (_, same) ↦ rw same
    ]
