-- ===== src/Settlement/Ledger/Sums.antt =====
-- The scans as plain sums: what each user was granted, has earned and has spent.
use mlx_mesh.Base.{
  ◌≡◌, refl, sym, List, [], ◌∷◌, ◌++◌, String, str_eq, if◌then◌else◌, inl, inr, Bool-cases, arith,
  All,
}
use mlx_mesh.Base.Int.{ℤ, pos, ◌+ℤ◌, ◌≤ℤ◌, +ℤ_assoc, +ℤ-zero, zero-+ℤ, int_laws}
use mlx_mesh.Settlement.Types.{
  CreditOrigin, startup_grant, earned_contrib, admin_adjustment, other, CreditEntry, LedgerDebit,
  Ledger,
}
use mlx_mesh.Settlement.Ledger.Totals.{Totals, tally, scan_entries, scan_debits, totals_of}

-- What an entry adds to the grants and to the earnings of its user.
abbrev pub grant_part : CreditOrigin → ℤ → ℤ
grant_part startup_grant x = x
grant_part earned_contrib x = pos 0
grant_part admin_adjustment x = pos 0
grant_part (other _) x = pos 0

abbrev pub earned_part : CreditOrigin → ℤ → ℤ
earned_part startup_grant x = pos 0
earned_part earned_contrib x = x
earned_part admin_adjustment x = x
earned_part (other _) x = pos 0

module _ (u : String) where
  pub granted : List CreditEntry → ℤ
  granted [] = pos 0
  granted (e ∷ es) =
      (if str_eq e.user_id u then grant_part e.origin e.amount else pos 0) +ℤ granted es

  pub earned : List CreditEntry → ℤ
  earned [] = pos 0
  earned (e ∷ es) =
      (if str_eq e.user_id u then earned_part e.origin e.amount else pos 0) +ℤ earned es

  pub spent : List LedgerDebit → ℤ
  spent [] = pos 0
  spent (d ∷ ds) = (if str_eq d.user_id u then d.amount else pos 0) +ℤ spent ds

  pub granted-append : (xs ys : List CreditEntry) → granted (xs ++ ys) ≡ granted xs +ℤ granted ys
  unfolding granted
  granted-append [] ys = sym (zero-+ℤ (granted ys))
  granted-append (x ∷ xs) ys = rw (granted-append xs ys) (sym (+ℤ_assoc _ _ _))

  pub earned-append : (xs ys : List CreditEntry) → earned (xs ++ ys) ≡ earned xs +ℤ earned ys
  unfolding earned
  earned-append [] ys = sym (zero-+ℤ (earned ys))
  earned-append (x ∷ xs) ys = rw (earned-append xs ys) (sym (+ℤ_assoc _ _ _))

  pub spent-append : (xs ys : List LedgerDebit) → spent (xs ++ ys) ≡ spent xs +ℤ spent ys
  unfolding spent
  spent-append [] ys = sym (zero-+ℤ (spent ys))
  spent-append (x ∷ xs) ys = rw (spent-append xs ys) (sym (+ℤ_assoc _ _ _))

-- What the `switch` adds.
tally-parts :
    (o : CreditOrigin) (x : ℤ) (t : Totals)
    → tally o x t ≡ record {
      grant = t.grant +ℤ grant_part o x;
      earned = t.earned +ℤ earned_part o x;
      debited = t.debited;
    }
unfolding tally
tally-parts startup_grant x t = simp +ℤ-zero
tally-parts earned_contrib x t = simp +ℤ-zero
tally-parts admin_adjustment x t = simp +ℤ-zero
tally-parts (other _) x t = simp +ℤ-zero

-- One round of the first loop, and one of the second.
entry_step :
    (u : String) (e : CreditEntry) (t : Totals)
    → (if str_eq e.user_id u then tally e.origin e.amount t else t) ≡ record {
      grant = t.grant +ℤ (if str_eq e.user_id u then grant_part e.origin e.amount else pos 0);
      earned = t.earned +ℤ (if str_eq e.user_id u then earned_part e.origin e.amount else pos 0);
      debited = t.debited;
    }
entry_step u e t = elim (Bool-cases (str_eq e.user_id u)) [
  | inl mine ↦ rw mine (tally-parts e.origin e.amount t)
  | inr other_user ↦ simp (other_user, +ℤ-zero)
]

debit_step :
    (u : String) (d : LedgerDebit) (t : Totals)
    → (if str_eq d.user_id u then record t { debited = t.debited +ℤ d.amount } else t)
      ≡ record t { debited = t.debited +ℤ (if str_eq d.user_id u then d.amount else pos 0) }
debit_step u d t = elim (Bool-cases (str_eq d.user_id u)) [
  | inl mine ↦ rw mine
  | inr other_user ↦ simp (other_user, +ℤ-zero)
]

pub scan_entries-sums :
    (u : String) (es : List CreditEntry) (t : Totals)
    → scan_entries u es t ≡ record {
      grant = t.grant +ℤ granted u es;
      earned = t.earned +ℤ earned u es;
      debited = t.debited;
    }
unfolding scan_entries granted earned
scan_entries-sums u [] t = simp +ℤ-zero
scan_entries-sums u (e ∷ es) t = rw (entry_step u e t) (simp (scan_entries-sums u es, +ℤ_assoc))

pub scan_debits-sums :
    (u : String) (ds : List LedgerDebit) (t : Totals)
    → scan_debits u ds t ≡ record t { debited = t.debited +ℤ spent u ds }
unfolding scan_debits spent
scan_debits-sums u [] t = simp +ℤ-zero
scan_debits-sums u (d ∷ ds) t = rw (debit_step u d t) (simp (scan_debits-sums u ds, +ℤ_assoc))

pub totals_of-sums :
    (l : Ledger) (u : String)
    → totals_of l u ≡ record {
      grant = granted u l.entries;
      earned = earned u l.entries;
      debited = spent u l.debits;
    }
unfolding totals_of
totals_of-sums l u = simp (scan_entries-sums u, scan_debits-sums u, zero-+ℤ)

-- One more entry adds to what its user was issued what its origin lets count.
part_nonneg :
    (o : CreditOrigin) (x : ℤ) → pos 0 ≤ℤ x → (pos 0 ≤ℤ grant_part o x) × (pos 0 ≤ℤ earned_part o x)
part_nonneg startup_grant x h = (h, omega arith)
part_nonneg earned_contrib x h = (omega arith, h)
part_nonneg admin_adjustment x h = (omega arith, h)
part_nonneg (other _) x h = (omega arith, omega arith)

pub one_entry_nonneg :
    (u : String) (e : CreditEntry)
    → pos 0 ≤ℤ e.amount
    → (pos 0 ≤ℤ granted u (e ∷ [])) × (pos 0 ≤ℤ earned u (e ∷ []))
unfolding granted earned
one_entry_nonneg u e h = elim (Bool-cases (str_eq e.user_id u)) [
  | inl mine ↦ rw mine (simp +ℤ-zero (part_nonneg e.origin e.amount h))
  | inr not_mine ↦ rw not_mine (simp +ℤ-zero (omega arith, omega arith))
]

pub spent-one :
    (u : String) (d : LedgerDebit)
    → spent u (d ∷ []) ≡ (if str_eq d.user_id u then d.amount else pos 0)
unfolding spent
spent-one u d = +ℤ-zero _

-- With no negative amount in the list the sums are no debts.
pub granted-nonneg :
    (u : String) (es : List CreditEntry) → All (λ e. pos 0 ≤ℤ e.amount) es → pos 0 ≤ℤ granted u es
unfolding granted
granted-nonneg u [] h = omega arith
granted-nonneg u (e ∷ es) h =
    let p : pos 0 ≤ℤ (if str_eq e.user_id u then grant_part e.origin e.amount else pos 0) =
      ground (arith, part_nonneg e.origin e.amount h.0) in
    omega (int_laws, p, granted-nonneg u es h.1)

pub earned-nonneg :
    (u : String) (es : List CreditEntry) → All (λ e. pos 0 ≤ℤ e.amount) es → pos 0 ≤ℤ earned u es
unfolding earned
earned-nonneg u [] h = omega arith
earned-nonneg u (e ∷ es) h =
    let p : pos 0 ≤ℤ (if str_eq e.user_id u then earned_part e.origin e.amount else pos 0) =
      ground (arith, part_nonneg e.origin e.amount h.0) in
    omega (int_laws, p, earned-nonneg u es h.1)

pub no_books : (u : String) → spent u [] ≤ℤ granted u [] +ℤ earned u []
unfolding spent granted earned ◌+ℤ◌
no_books u = omega arith

pub granted-cons :
    (u : String) (e : CreditEntry) (es : List CreditEntry)
    → granted u (e ∷ es)
      ≡ (if str_eq e.user_id u then grant_part e.origin e.amount else pos 0) +ℤ granted u es
unfolding granted
granted-cons u e es = refl

pub granted-nil : (u : String) → granted u [] ≡ pos 0
unfolding granted
granted-nil u = refl
