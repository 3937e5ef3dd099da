-- ===== src/Payments/Conservation.antt =====
-- Where credits come from: a paid job mints none.
use mlx_mesh.Base.{
  ◌⊎◌, ◌≢◌, ℕ, ◌<◌, ◌&&◌, not, ◌≡◌, ◌∙◌, sym, inl, inr, Bool, true, false, Option, none, some, List,
  [], ◌∷◌, ◌++◌, String, str_eq, arith, if◌then◌else◌, Bool-cases, Option-cases, eq_refl,
}
use mlx_mesh.Base.Int.{ℤ, pos, ◌+ℤ◌, ◌-ℤ◌, ◌≤ℤ◌, ltb_ℤ, int_laws, +ℤ_assoc, +ℤ-zero, zero-+ℤ}
use mlx_mesh.Base.Dict.{Dict, lookup, lookup-insert}
use mlx_mesh.Settlement.Types.{CreditEntry, LedgerDebit, Ledger, TimeText}
use mlx_mesh.Settlement.Ledger.Operations.{credit_locked, credit_account, debit_account}
use mlx_mesh.Settlement.Ledger.Solvency.{debit_account_cases}
use mlx_mesh.Economics.{Lane, fast, Ratio, provider_reward, consumer_cost_with_activity_discount}
use mlx_mesh.Economics.Activity.{discounted_bounds}
use mlx_mesh.Payments.{
  credits, earning, margin_of, credit_node_earning, credit_once, settle_fast_lane,
}

-- All the credits that were ever issued, and all that were ever spent.
pub minted : List CreditEntry → ℤ
minted [] = pos 0
minted (e ∷ es) = e.amount +ℤ minted es

pub charged : List LedgerDebit → ℤ
charged [] = pos 0
charged (d ∷ ds) = d.amount +ℤ charged ds

pub in_circulation : Ledger → ℤ
in_circulation l = minted l.entries -ℤ charged l.debits

minted-append : (xs ys : List CreditEntry) → minted (xs ++ ys) ≡ minted xs +ℤ minted ys
unfolding minted
minted-append [] ys = sym (zero-+ℤ (minted ys))
minted-append (x ∷ xs) ys = rw (minted-append xs ys) (sym (+ℤ_assoc _ _ _))

charged-append : (xs ys : List LedgerDebit) → charged (xs ++ ys) ≡ charged xs +ℤ charged ys
unfolding charged
charged-append [] ys = sym (zero-+ℤ (charged ys))
charged-append (x ∷ xs) ys = rw (charged-append xs ys) (sym (+ℤ_assoc _ _ _))

minted-one : (e : CreditEntry) → minted (e ∷ []) ≡ e.amount
unfolding minted
minted-one e = +ℤ-zero e.amount

charged-one : (d : LedgerDebit) → charged (d ∷ []) ≡ d.amount
unfolding charged
charged-one d = +ℤ-zero d.amount

credit_account_books :
    (tx : TimeText) (l : Ledger) (e : CreditEntry)
    → let l' = (credit_account tx true l e).0 in
      (l'.entries ≡ l.entries ++ e ∷ []) × (l'.debits ≡ l.debits)
unfolding credit_account credit_locked
credit_account_books tx l e = ground arith

credit_account-circulation :
    (tx : TimeText) (l : Ledger) (e : CreditEntry)
    → in_circulation (credit_account tx true l e).0 ≡ in_circulation l +ℤ e.amount
unfolding in_circulation
credit_account-circulation tx l e =
    let (grown, same) = credit_account_books tx l e in
    rw (grown, same, minted-append l.entries (e ∷ []), minted-one e) (omega int_laws)

debit_account-circulation :
    (tx : TimeText) (exec : Bool) (now : ℕ) (l : Ledger) (user : String) (x : ℤ) (job : String)
    → let (l', paid) = debit_account tx exec now l user x job in
      in_circulation l' ≡ in_circulation l -ℤ (if paid then x else pos 0)
unfolding in_circulation
debit_account-circulation tx exec now l user x job =
    elim (debit_account_cases tx exec now l user x job) [
      | inl (paid, _, grown, same) ↦
          rw (paid, grown, same, charged-append, charged-one) (omega int_laws)
      | inr (refused, same) ↦ rw (refused, same) (omega int_laws)
    ]

margin_of-add :
    (charge reward : ℤ)
    → reward ≤ℤ charge
    → (reward +ℤ margin_of charge reward ≡ charge) × (pos 0 ≤ℤ margin_of charge reward)
unfolding margin_of
margin_of-add charge reward h = (grind int_laws, grind int_laws)

-- A reward and, if there is one, a margin.
two_credits :
    (tx : TimeText) (l : Ledger) (e e' : CreditEntry) (charge : ℤ)
    → (e.amount +ℤ e'.amount ≡ charge) × (pos 0 ≤ℤ e'.amount)
    → let l' = (credit_account tx true l e).0 in
      in_circulation (if ltb_ℤ (pos 0) e'.amount then (credit_account tx true l' e').0 else l')
      ≡ in_circulation l +ℤ charge
two_credits tx l e e' charge (sum, nonneg) = elim (Bool-cases (ltb_ℤ (pos 0) e'.amount)) [
  | inl some_margin ↦
      rw (some_margin, credit_account-circulation tx _ e', credit_account-circulation tx l e)
        (+ℤ_assoc _ _ _ ∙ rw sum)
  | inr no_margin ↦
      rw (no_margin, credit_account-circulation tx l e)
        (let none_left : e'.amount ≡ pos 0 = zero_of e'.amount nonneg no_margin in
          rw (← sum, none_left, +ℤ-zero))
]
  where
    zero_of : (a : ℤ) → pos 0 ≤ℤ a → ltb_ℤ (pos 0) a ≡ false → a ≡ pos 0
    zero_of a h k = grind int_laws

-- Nothing is minted for a simulated node.
abbrev pub pays : Option Bool → Bool
pays (some b) = not b
pays none = true

-- The reward and the margin together are the charge.
credit_node_earning-circulation :
    (tx : TimeText) (now : ℕ) (l : Ledger) (links node_users : Dict String)
    (simulated : Option Bool) (node job : String) (lane : Lane) (sensitivity : String)
    (tokens charge : ℤ)
    → credits (provider_reward lane sensitivity tokens) ≤ℤ charge
    → in_circulation (
        credit_node_earning tx now true true l links node_users simulated node job lane sensitivity
          tokens charge)
      ≡ in_circulation l +ℤ (if pays simulated then charge else pos 0)
unfolding credit_node_earning earning
credit_node_earning-circulation tx now l links node_users (some true) node job lane sensitivity
      tokens charge h =
    sym (+ℤ-zero (in_circulation l))
credit_node_earning-circulation tx now l links node_users (some false) node job lane sensitivity
      tokens charge h =
    two_credits tx l _ _ charge (margin_of-add charge _ h)
credit_node_earning-circulation tx now l links node_users none node job lane sensitivity tokens
      charge h =
    two_credits tx l _ _ charge (margin_of-add charge _ h)

-- Whether the job is credited: a node served tokens, it is no simulated node, and the job has not been
-- credited before.
abbrev pub is_credited : Dict (Unit {0}) → Option Bool → String → String → ℤ → Bool
is_credited done simulated node job tokens =
    (not (str_eq node "") && ltb_ℤ (pos 0) tokens)
    && (elim (lookup job done) [ some _ ↦ false | none ↦ true ] && pays simulated)

credit_once-circulation :
    (tx : TimeText) (now : ℕ) (l : Ledger) (done : Dict (Unit {0})) (links node_users : Dict String)
    (simulated : Option Bool) (node job sensitivity : String) (tokens charge : ℤ)
    → credits (provider_reward fast sensitivity tokens) ≤ℤ charge
    → in_circulation
        (credit_once tx now true true l done links node_users simulated node job sensitivity tokens
          charge).0
      ≡ in_circulation l +ℤ (if is_credited done simulated node job tokens then charge else pos 0)
unfolding credit_once
credit_once-circulation tx now l done links node_users simulated node job sensitivity tokens charge
      h =
    ground (
      arith,
      credit_node_earning-circulation tx now l links node_users simulated node job fast sensitivity
          tokens charge h,
      +ℤ-zero (in_circulation l),
    )

-- What a settlement records.
credit_once_records :
    (tx : TimeText) (now : ℕ) (l : Ledger) (done : Dict (Unit {0})) (links node_users : Dict String)
    (simulated : Option Bool) (node job sensitivity : String) (tokens charge : ℤ)
    → let after =
        (credit_once tx now true true l done links node_users simulated node job sensitivity tokens
          charge).1 in
      (is_credited done simulated node job tokens ≡ false) ⊎ (lookup job after ≡ some tt)
unfolding credit_once
credit_once_records tx now l done links node_users simulated node job sensitivity tokens charge =
    elim (Bool-cases (not (str_eq node "") && ltb_ℤ (pos 0) tokens)) [
      | inr nothing ↦ inl (rw nothing)
      | inl served ↦ elim (Option-cases (lookup job done)) [
        | inr (u, before) ↦ inl (rw before (ground arith))
        | inl new ↦ inr (rw (served, new, credit_once, lookup-insert, eq_refl job))
      ]
    ]

credit_once_keeps :
    (tx : TimeText) (now : ℕ) (l : Ledger) (done : Dict (Unit {0})) (links node_users : Dict String)
    (simulated : Option Bool) (node job other sensitivity : String) (tokens charge : ℤ)
    → let after =
        (credit_once tx now true true l done links node_users simulated node job sensitivity tokens
          charge).1 in
      (lookup other done ≡ none) ⊎ (lookup other after ≢ none)
unfolding credit_once
credit_once_keeps tx now l done links node_users simulated node job other sensitivity tokens
      charge =
    elim (Option-cases (lookup other done)) [
      | inl new ↦ inl new
      | inr (u, before) ↦ elim (Bool-cases (not (str_eq node "") && ltb_ℤ (pos 0) tokens)) [
        | inr nothing ↦ inr (rw (nothing, credit_once, before) (λ h. cc))
        | inl served ↦ elim (Option-cases (lookup job done)) [
          | inr (v, known) ↦ inr (rw (served, known, credit_once, before) (λ h. cc))
          | inl fresh ↦ inr (rw (served, fresh, credit_once, lookup-insert, before) (ground arith))
        ]
      ]
    ]

module _ (tx : TimeText) (now : ℕ) (exec : Bool) (l : Ledger) (done : Dict (Unit {0}))
    (links node_users : Dict String) (simulated : Option Bool) (node job user sensitivity : String)
    (tokens : ℤ) (pct : Ratio) where
  -- If the writes of its credits succeed, a served job puts into the books what it takes out of them:
  -- the credits in circulation grow by the price if the job is credited, and fall by the same price if
  -- the consumer is debited: a job that is credited and debited mints nothing, and nothing is minted
  -- for a simulated node. A job that was credited is recorded, so that no node is credited by its next
  -- settlement, and what was recorded before stays recorded.
  pub settle_fast_lane-circulation :
      (simulated' : Option Bool) (node' other : String) (tokens' : ℤ)
      → 0 < pct.den
      → let s =
          settle_fast_lane tx now true true exec l done links node_users simulated node job user
            sensitivity tokens pct in
        let price = credits (consumer_cost_with_activity_discount fast sensitivity tokens pct) in
        (in_circulation s.ledger
          ≡ in_circulation l
            +ℤ (if is_credited done simulated node job tokens then price else pos 0)
            -ℤ (if s.debited then price else pos 0))
        × ((is_credited done simulated node job tokens ≡ false)
            ⊎ (is_credited s.credited_jobs simulated' node' job tokens' ≡ false))
        × ((lookup other done ≡ none) ⊎ (lookup other s.credited_jobs ≢ none))
  unfolding settle_fast_lane
  settle_fast_lane-circulation simulated' node' other tokens' h =
      elim (Bool-cases (str_eq user "")) [
        | inl anonymous ↦ rw anonymous (no_debit _ _ earned, once, stays)
        | inr named ↦
            rw named
              (rw (debit_account-circulation tx exec now _ user price job, earned), once, stays)
      ]
    where
      price : ℤ
      price = credits (consumer_cost_with_activity_discount fast sensitivity tokens pct)

      after : Dict (Unit {0})
      after =
          (credit_once tx now true true l done links node_users simulated node job sensitivity
            tokens price).1

      stays : (lookup other done ≡ none) ⊎ (lookup other after ≢ none)
      stays =
          credit_once_keeps tx now l done links node_users simulated node job other sensitivity
            tokens price

      recorded : (is_credited done simulated node job tokens ≡ false) ⊎ (lookup job after ≡ some tt)
      recorded =
          credit_once_records tx now l done links node_users simulated node job sensitivity tokens
            price

      not_again :
          (d : Dict (Unit {0})) (k : String)
          → lookup k d ≡ some tt
          → is_credited d simulated' node' k tokens' ≡ false
      not_again d k kept = rw kept (ground arith)

      once :
          (is_credited done simulated node job tokens ≡ false)
          ⊎ (is_credited after simulated' node' job tokens' ≡ false)
      once = elim (Bool-cases (is_credited done simulated node job tokens)) [
        | inr free ↦ inl free
        | inl credited ↦ elim recorded [
          | inl free ↦ inl free
          | inr kept ↦ inr (not_again after job kept)
        ]
      ]

      earned :
          in_circulation
            (credit_once tx now true true l done links node_users simulated node job sensitivity
              tokens price).0
          ≡ in_circulation l
            +ℤ (if is_credited done simulated node job tokens then price else pos 0)
      earned =
          credit_once-circulation tx now l done links node_users simulated node job sensitivity
            tokens price (omega (arith, (discounted_bounds fast sensitivity tokens pct h).0))

      no_debit : (a b : ℤ) → a ≡ b → a ≡ b -ℤ pos 0
      no_debit a b h = rw h (omega int_laws)
