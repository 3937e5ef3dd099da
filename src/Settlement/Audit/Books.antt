-- ===== src/Settlement/Audit/Books.antt =====
-- The totals of the report against one another.
use mlx_mesh.Base.{
  ◌≡◌, refl, sym, ◌∙◌, ap, inl, inr, List, [], ◌∷◌, String, str_eq, arith, eq_refl, String-cases,
  Bool-cases,
}
use mlx_mesh.Base.Int.{
  ℤ, pos, ◌+ℤ◌, ◌-ℤ◌, ◌≤ℤ◌, int_laws, +ℤ-zero, zero-+ℤ, +ℤ_assoc, +ℤ_comm, parts_of,
}
use mlx_mesh.Base.Dict.{Dict, insert, IsDistinct}
use mlx_mesh.Settlement.Types.{
  CreditOrigin, startup_grant, earned_contrib, admin_adjustment, other, CreditEntry, LedgerDebit,
  Ledger,
}
use mlx_mesh.Settlement.Ledger.Totals.{Totals, no_totals, tally}
use mlx_mesh.Settlement.Ledger.Sums.{spent, totals_of-sums}
use mlx_mesh.Settlement.Ledger.Solvency.{issued, IsSolvent}
use mlx_mesh.Settlement.Audit.{
  update, debit_by, collect_entries, collect_debits, users_of, sum_entries, sum_debits,
  outstanding_of, sum_outstanding, reconcile,
}
use mlx_mesh.Settlement.Audit.Users.{
  found, found-nil, found-cons, found_new, users_of-found, users_of-IsDistinct,
}

-- What a user, or the whole book, has left.
abbrev net : Totals → ℤ
net s = s.grant +ℤ s.earned -ℤ s.debited

net_sum : Dict Totals → ℤ
net_sum [] = pos 0
net_sum (u ∷ us) = net u.1 +ℤ net_sum us

net_sum-cons :
    (u : String) (s : Totals) (m : Dict Totals) → net_sum ((u, s) ∷ m) ≡ net s +ℤ net_sum m
unfolding net_sum
net_sum-cons u s m = refl

net-none : net no_totals ≡ pos 0
unfolding ◌+ℤ◌ ◌-ℤ◌
net-none = refl

-- Writing a user's totals moves the sum by what it moves that user.
net_sum-insert :
    (k : String) (s : Totals) (m : Dict Totals)
    → net_sum (insert k s m) +ℤ net (found k m) ≡ net_sum m +ℤ net s
unfolding insert
net_sum-insert k s [] =
    rw (net_sum-cons k s [], found-nil k, net-none) (simp (+ℤ-zero, +ℤ_comm (net_sum []) (net s)))
net_sum-insert k s (e ∷ m) = elim (Bool-cases (str_eq e.0 k)) [
  | inl same ↦
      rw (same, net_sum-cons k s m, net_sum-cons e.0 e.1 m, found-cons e.0 k e.1 m, same)
        (swap_ends (net s) (net_sum m) (net e.1))
  | inr differs ↦
      rw (differs, net_sum-cons e.0 e.1, net_sum-cons e.0 e.1, found-cons e.0 k e.1 m, differs)
        (under_head (net e.1) _ _ _ _ (net_sum-insert k s m))
]
  where
    swap_ends : (a b c : ℤ) → a +ℤ b +ℤ c ≡ c +ℤ b +ℤ a
    swap_ends a b c = omega int_laws

    under_head : (a b c d f : ℤ) → b +ℤ c ≡ d +ℤ f → a +ℤ b +ℤ c ≡ a +ℤ d +ℤ f
    under_head a b c d f h = rw (+ℤ_assoc, h, +ℤ_assoc)

update-insert :
    (k : String) (f : Totals → Totals) (m : Dict Totals) → update k f m ≡ insert k (f (found k m)) m
unfolding update found
update-insert k f m = ground arith

-- So a change of a user's net amount is a change of the sum.
net_sum-update :
    (k : String) (f : Totals → Totals) (x : ℤ) (m : Dict Totals)
    → net (f (found k m)) ≡ net (found k m) +ℤ x
    → net_sum (update k f m) ≡ net_sum m +ℤ x
net_sum-update k f x m h = rw (update-insert k f m) (
    cancel (net_sum (insert k (f (found k m)) m)) (net (found k m)) (net_sum m) x
      (net_sum-insert k (f (found k m)) m ∙ ap (◌+ℤ◌ (net_sum m)) h))
  where
    cancel : (a b c x : ℤ) → a +ℤ b ≡ c +ℤ (b +ℤ x) → a ≡ c +ℤ x
    cancel a b c x h = omega (int_laws, parts_of h)

-- What an entry adds to the net amount of whoever's totals it is tallied into.
counted : CreditOrigin → ℤ → ℤ
counted startup_grant x = x
counted earned_contrib x = x
counted admin_adjustment x = x
counted (other _) x = pos 0

net-tally : (o : CreditOrigin) (x : ℤ) (s : Totals) → net (tally o x s) ≡ net s +ℤ counted o x
unfolding tally counted
net-tally startup_grant x s = omega int_laws
net-tally earned_contrib x s = omega int_laws
net-tally admin_adjustment x s = omega int_laws
net-tally (other _) x s = omega int_laws

net-debit_by : (x : ℤ) (s : Totals) → net (debit_by x s) ≡ net s +ℤ (pos 0 -ℤ x)
net-debit_by x s = omega int_laws

-- Both sides of an equation moved by the same amount.
shift : (a m s t t' m' x : ℤ) → t' ≡ t +ℤ x → m' ≡ m +ℤ x → a +ℤ t' ≡ m' +ℤ s → a +ℤ t ≡ m +ℤ s
shift a m s t t' m' x p q h = omega (int_laws, parts_of p, parts_of q, parts_of h)

collect_entries-net :
    (es : List CreditEntry) (m : Dict Totals) (t : Totals)
    → net_sum (collect_entries es m) +ℤ net t ≡ net_sum m +ℤ net (sum_entries es t)
unfolding collect_entries sum_entries
collect_entries-net [] m t = refl
collect_entries-net (e ∷ es) m t =
    let f : Totals → Totals = tally e.origin e.amount in
    shift _ (net_sum m) _ (net t) _ _ (counted e.origin e.amount) (net-tally e.origin e.amount t)
      (net_sum-update e.user_id f (counted e.origin e.amount) m
        (net-tally e.origin e.amount (found e.user_id m)))
      (collect_entries-net es (update e.user_id f m) (f t))

collect_debits-net :
    (ds : List LedgerDebit) (m : Dict Totals) (t : Totals)
    → net_sum (collect_debits ds m) +ℤ net t ≡ net_sum m +ℤ net (sum_debits ds t)
unfolding collect_debits sum_debits
collect_debits-net [] m t = refl
collect_debits-net (d ∷ ds) m t =
    shift _ (net_sum m) _ (net t) _ _ (pos 0 -ℤ d.amount) (net-debit_by d.amount t)
      (net_sum-update d.user_id (debit_by d.amount) _ m (net-debit_by d.amount (found d.user_id m)))
      (collect_debits-net ds (update d.user_id (debit_by d.amount) m) (debit_by d.amount t))

-- The users' net amounts add up to the net amount of the report's totals.
users_of-net :
    (l : Ledger)
    → net_sum (users_of l) ≡ net (sum_debits l.debits (sum_entries l.entries no_totals))
unfolding users_of net_sum
users_of-net l =
    joined _ _ _ _ (net no_totals) net-none (collect_entries-net l.entries [] no_totals)
      (collect_debits-net l.debits (collect_entries l.entries []) (sum_entries l.entries no_totals))
  where
    joined : (a b c d n : ℤ) → n ≡ pos 0 → a +ℤ n ≡ pos 0 +ℤ b → c +ℤ b ≡ a +ℤ d → c ≡ d
    joined a b c d n z p q = omega (int_laws, parts_of z, parts_of p, parts_of q)

-- A user who has something left, or nothing, adds just that to `total_outstanding`.
outstanding_of-net : (s : Totals) → pos 0 ≤ℤ net s → outstanding_of s ≡ net s
unfolding outstanding_of
outstanding_of-net s h = grind int_laws

sum_outstanding-net :
    (m : Dict Totals) (acc : ℤ)
    → IsDistinct m
    → ((u : String) → pos 0 ≤ℤ net (found u m))
    → sum_outstanding m acc ≡ acc +ℤ net_sum m
unfolding sum_outstanding net_sum
sum_outstanding-net [] acc d h = sym (+ℤ-zero acc)
sum_outstanding-net ((k, s) ∷ m) acc d h =
    rw (sum_outstanding-net m (acc +ℤ outstanding_of s) d.1 rest, outstanding_of-net s here)
      (+ℤ_assoc acc (net s) (net_sum m))
  where
    here : pos 0 ≤ℤ net s
    here = rw (found-cons, eq_refl) at (h k)

    rest : (u : String) → pos 0 ≤ℤ net (found u m)
    rest u = elim (String-cases k u) [
      | inl same ↦ rw (← same, found_new k m d.0, net-none) (omega arith)
      | inr differs ↦ rw (found-cons, differs) at (h u)
    ]

-- On a solvent ledger the report's books balance: the users' balances together are the credits that
-- count minus the debits.
pub reconcile_balances :
    (l : Ledger)
    → IsSolvent l
    → let r = reconcile l in r.total_outstanding ≡ r.total_credits -ℤ r.total_debits
unfolding reconcile
reconcile_balances l s =
    sum_outstanding-net (users_of l) (pos 0) (users_of-IsDistinct l) funded
    ∙ zero-+ℤ (net_sum (users_of l))
    ∙ users_of-net l
  where
    funded : (u : String) → pos 0 ≤ℤ net (found u (users_of l))
    funded u =
        rw (users_of-found l u, totals_of-sums l u) (left (issued l u) (spent u l.debits) (s u))
      where
        left : (a b : ℤ) → b ≤ℤ a → pos 0 ≤ℤ a -ℤ b
        left a b h = omega int_laws
