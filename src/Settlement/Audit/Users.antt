-- ===== src/Settlement/Audit/Users.antt =====
-- The map of users holds, for each of them, what a scan for that user alone gives.
use mlx_mesh.Base.{
  ◌≡◌, refl, ◌∙◌, ap, none, some, List, [], ◌∷◌, String, str_eq, if◌then◌else◌, arith, eq_iff,
}
use mlx_mesh.Base.Dict.{
  Dict, lookup, lookup-insert, lookup-nil, lookup-cons, IsDistinct, insert-IsDistinct,
}
use mlx_mesh.Settlement.Types.{CreditEntry, LedgerDebit, Ledger}
use mlx_mesh.Settlement.Ledger.Totals.{
  Totals, no_totals, tally, scan_entries, scan_debits, totals_of,
}
use mlx_mesh.Settlement.Audit.{update, debit_by, collect_entries, collect_debits, users_of}

-- What the map says of a user: nothing, if the user has not been seen.
unfoldable pub found : String → Dict Totals → Totals
found u m = elim (lookup u m) [ none ↦ no_totals | some s ↦ s ]

pub found-nil : (u : String) → found u [] ≡ no_totals
unfolding found
found-nil u = rw (lookup-nil {V = Totals} u, found)

pub found_new : (u : String) (m : Dict Totals) → lookup u m ≡ none → found u m ≡ no_totals
unfolding found
found_new u m h = rw (h, found)

pub found-some : (u : String) (s : Totals) (m : Dict Totals) → lookup u m ≡ some s → found u m ≡ s
unfolding found
found-some u s m h = rw (h, found)

pub found-cons :
    (k u : String) (s : Totals) (m : Dict Totals)
    → found u ((k, s) ∷ m) ≡ (if str_eq k u then s else found u m)
unfolding found
found-cons k u s m = ground (arith, lookup-cons k u s m)

pub found-update :
    (k u : String) (f : Totals → Totals) (m : Dict Totals)
    → found u (update k f m) ≡ (if str_eq k u then f (found u m) else found u m)
unfolding update found
found-update k u f m =
    ground
      (arith, eq_iff k u, lookup-insert k u (f no_totals) m, lookup-insert k u (f (found k m)) m)

pub update-IsDistinct :
    (k : String) (f : Totals → Totals) (m : Dict Totals) → IsDistinct m → IsDistinct (update k f m)
unfolding update found
update-IsDistinct k f m d =
    ground (arith, insert-IsDistinct k (f no_totals) m d, insert-IsDistinct k (f (found k m)) m d)

collect_entries-found :
    (u : String) (es : List CreditEntry) (m : Dict Totals)
    → found u (collect_entries es m) ≡ scan_entries u es (found u m)
unfolding collect_entries scan_entries
collect_entries-found u [] m = refl
collect_entries-found u (e ∷ es) m =
    collect_entries-found u es (update e.user_id (tally e.origin e.amount) m)
    ∙ ap (scan_entries u es) (found-update e.user_id u (tally e.origin e.amount) m)

pub collect_debits-found :
    (u : String) (ds : List LedgerDebit) (m : Dict Totals)
    → found u (collect_debits ds m) ≡ scan_debits u ds (found u m)
unfolding collect_debits scan_debits
collect_debits-found u [] m = refl
collect_debits-found u (d ∷ ds) m =
    collect_debits-found u ds (update d.user_id (debit_by d.amount) m)
    ∙ ap (scan_debits u ds) (found-update d.user_id u (debit_by d.amount) m)

-- The one pass of the audit over all users agrees with the pass of `GetBalance` over one.
pub users_of-found : (l : Ledger) (u : String) → found u (users_of l) ≡ totals_of l u
unfolding users_of totals_of
users_of-found l u =
    collect_debits-found u l.debits (collect_entries l.entries [])
    ∙ ap (scan_debits u l.debits) (collect_entries-found u l.entries [] ∙ rw (found-nil u))

collect_entries-IsDistinct :
    (es : List CreditEntry) (m : Dict Totals) → IsDistinct m → IsDistinct (collect_entries es m)
unfolding collect_entries
collect_entries-IsDistinct [] m d = d
collect_entries-IsDistinct (e ∷ es) m d =
    collect_entries-IsDistinct es _ (update-IsDistinct e.user_id (tally e.origin e.amount) m d)

pub collect_debits-IsDistinct :
    (ds : List LedgerDebit) (m : Dict Totals) → IsDistinct m → IsDistinct (collect_debits ds m)
unfolding collect_debits
collect_debits-IsDistinct [] m d = d
collect_debits-IsDistinct (x ∷ ds) m d =
    collect_debits-IsDistinct ds _ (update-IsDistinct x.user_id (debit_by x.amount) m d)

pub users_of-IsDistinct : (l : Ledger) → IsDistinct (users_of l)
unfolding users_of
users_of-IsDistinct l =
    collect_debits-IsDistinct l.debits _ (collect_entries-IsDistinct l.entries [] tt)
