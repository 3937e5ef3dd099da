-- ===== src/Coordinator/Experts/Plan.antt =====
-- Every expert has one node.
use mathlib.Core.List.{append_assoc, append-nil}
use mlx_mesh.Base.{
  ℕ, zero, suc, ◌+◌, ◌-◌, ◌≤◌, ◌<◌, ◌||◌, true-ne-false, ◌≡◌, refl, sym, ap, ◌∙◌, inl, inr, Bool,
  true, false, Option, none, some, List, [], ◌∷◌, ◌++◌, String, str_eq, ◌==◌, any, Bool-cases,
  Option-cases, arith, eq_iff, none-ne-some, subst, All,
}
use mlx_mesh.Base.Dict.{lookup, insert, lookup-insert, lookup-nil}
use mlx_mesh.Coordinator.Experts.{
  Candidate, Share, Assignment, shares, count_sum, place_by, sort_by, earlier_node, larger_frac,
  bump, experts_from, assign_from, planned, final_shares, plan_moe_expert_assignment,
  node_of_expert, total_capacity, route_token_to_expert_node,
}
use mlx_mesh.Coordinator.Experts.Shares.{count_sum-sort_by, final_shares_total}

-- All experts of an assignment, node after node.
abbrev pub all_experts : Assignment → List ℕ
all_experts [] = []
all_experts (e ∷ a) = e.1 ++ all_experts a

experts_from-append :
    (first m n : ℕ)
    → experts_from first m ++ experts_from (first + m) n ≡ experts_from first (m + n)
unfolding experts_from
experts_from-append first zero n =
    let stay : first + 0 ≡ first = omega arith in
    let same : 0 + n ≡ n = omega arith in rw (stay, same)
experts_from-append first (suc m) n =
    let shift : first + suc m ≡ suc first + m = omega arith in
    let more : suc m + n ≡ suc (m + n) = omega arith in
    rw (shift, more, experts_from) (ap (λ r. first ∷ r) (experts_from-append (suc first) m n))

insert-append :
    (k : String) (v : List ℕ) (a : Assignment)
    → lookup k a ≡ none
    → insert k v a ≡ a ++ ((k, v) ∷ [])
unfolding lookup insert
insert-append k v [] h = refl
insert-append k v (e ∷ a) h = ground (arith, insert-append k v a)

all_experts-append : (a b : Assignment) → all_experts (a ++ b) ≡ all_experts a ++ all_experts b
all_experts-append [] b = refl
all_experts-append (e ∷ a) b =
    rw (all_experts-append a b) (sym (append_assoc e.1 (all_experts a) (all_experts b)))

-- The share is of another node.
abbrev Others : String → List Share → Type 0
Others k ss = All (λ s. str_eq k s.node_id ≡ false) ss

abbrev pub AreDistinct : List Share → Type 0
AreDistinct [] = Unit
AreDistinct (s ∷ ss) = Others s.node_id ss × AreDistinct ss

abbrev AreNew : Assignment → List Share → Type 0
AreNew a ss = All (λ s. lookup s.node_id a ≡ none) ss

Others-place_by :
    (before : Share → Share → Bool) (k : String) (s : Share) (ss : List Share)
    → str_eq k s.node_id ≡ false
    → Others k ss
    → Others k (place_by before s ss)
unfolding place_by
Others-place_by before k s [] e h = (e, tt)
Others-place_by before k s (t ∷ ts) e h = elim (Bool-cases (before t s)) [
  | inl later ↦ rw (later, place_by) (h.0, Others-place_by before k s ts e h.1)
  | inr here ↦ rw (here, place_by) (e, h)
]

str_eq_sym : (a b : String) → str_eq a b ≡ false → str_eq b a ≡ false
str_eq_sym a b h = ground (arith, eq_iff a b, eq_iff b a)

AreDistinct-place_by :
    (before : Share → Share → Bool) (s : Share) (ss : List Share)
    → Others s.node_id ss
    → AreDistinct ss
    → AreDistinct (place_by before s ss)
unfolding place_by
AreDistinct-place_by before s [] o d = (tt, tt)
AreDistinct-place_by before s (t ∷ ts) o d = elim (Bool-cases (before t s)) [
  | inl later ↦
      rw (later, place_by)
        (
          Others-place_by before t.node_id s ts (str_eq_sym s.node_id t.node_id o.0) d.0,
          AreDistinct-place_by before s ts o.1 d.1,
        )
  | inr here ↦ rw (here, place_by) (o, d)
]

Others-sort_by :
    (before : Share → Share → Bool) (k : String) (ss : List Share)
    → Others k ss
    → Others k (sort_by before ss)
unfolding sort_by
Others-sort_by before k [] h = tt
Others-sort_by before k (s ∷ ss) h =
    Others-place_by before k s (sort_by before ss) h.0 (Others-sort_by before k ss h.1)

AreDistinct-sort_by :
    (before : Share → Share → Bool) (ss : List Share)
    → AreDistinct ss
    → AreDistinct (sort_by before ss)
unfolding sort_by
AreDistinct-sort_by before [] d = tt
AreDistinct-sort_by before (s ∷ ss) d =
    AreDistinct-place_by before s (sort_by before ss) (Others-sort_by before s.node_id ss d.0)
      (AreDistinct-sort_by before ss d.1)

share_list_inj : (r s : List Share) → ◌≡◌ {A = Option (List Share)} (some r) (some s) → r ≡ s
share_list_inj r s e = cc

bump-Others :
    (k : ℕ) (id : String) (ss r : List Share) → bump k ss ≡ some r → Others id ss → Others id r
unfolding bump
bump-Others zero id ss r e h = subst (λ x. Others id x) (share_list_inj ss r e) h
bump-Others (suc k) id [] r e h = absurd (none-ne-some r e)
bump-Others (suc k) id (s ∷ ss) r e h = elim (Option-cases (bump k ss)) [
  | inl out ↦ absurd (none-ne-some r (rw (out, bump) at e))
  | inr (rest, done) ↦
      subst (λ x. Others id x)
        (share_list_inj (record s { count = suc s.count } ∷ rest) r (rw (done, bump) at e))
        (h.0, bump-Others k id ss rest done h.1)
]

bump-AreDistinct : (k : ℕ) (ss r : List Share) → bump k ss ≡ some r → AreDistinct ss → AreDistinct r
unfolding bump
bump-AreDistinct zero ss r e h = subst (λ x. AreDistinct x) (share_list_inj ss r e) h
bump-AreDistinct (suc k) [] r e h = absurd (none-ne-some r e)
bump-AreDistinct (suc k) (s ∷ ss) r e h = elim (Option-cases (bump k ss)) [
  | inl out ↦ absurd (none-ne-some r (rw (out, bump) at e))
  | inr (rest, done) ↦
      subst (λ x. AreDistinct x)
        (share_list_inj (record s { count = suc s.count } ∷ rest) r (rw (done, bump) at e))
        (bump-Others k s.node_id ss rest done h.0, bump-AreDistinct k ss rest done h.1)
]

-- The candidates are different nodes.
abbrev pub AreNodes : List Candidate → Type 0
AreNodes [] = Unit
AreNodes (c ∷ cs) = All (λ d. str_eq c.node_id d.node_id ≡ false) cs × AreNodes cs

shares-Others :
    (t m : ℕ) (k : String) (cs : List Candidate)
    → All (λ d. str_eq k d.node_id ≡ false) cs
    → Others k (shares t m cs)
unfolding shares
shares-Others t m k [] h = tt
shares-Others t m k (c ∷ cs) h = (h.0, shares-Others t m k cs h.1)

shares-AreDistinct : (t m : ℕ) (cs : List Candidate) → AreNodes cs → AreDistinct (shares t m cs)
unfolding shares
shares-AreDistinct t m [] h = tt
shares-AreDistinct t m (c ∷ cs) h =
    (shares-Others t m c.node_id cs h.0, shares-AreDistinct t m cs h.1)

AreNew-insert :
    (k : String) (v : List ℕ) (a : Assignment) (ss : List Share)
    → Others k ss
    → AreNew a ss
    → AreNew (insert k v a) ss
AreNew-insert k v a [] o n = tt
AreNew-insert k v a (s ∷ ss) o n =
    (lookup-insert k s.node_id v a ∙ rw o.0 n.0, AreNew-insert k v a ss o.1 n.1)

experts_from-nil : (first : ℕ) → experts_from first 0 ≡ []
unfolding experts_from
experts_from-nil first = refl

-- What is assigned from an expert on is the following experts, as many as the counts say.
all_experts-assign_from :
    (first : ℕ) (ss : List Share) (a : Assignment)
    → AreDistinct ss
    → AreNew a ss
    → all_experts (assign_from first ss a) ≡ all_experts a ++ experts_from first (count_sum ss)
unfolding assign_from count_sum
all_experts-assign_from first [] a d n = rw (experts_from-nil first, append-nil (all_experts a))
all_experts-assign_from first (s ∷ ss) a d n = elim (Bool-cases (s.count == 0)) [
  | inl none_here ↦
      (let stay : first + s.count ≡ first = ground arith in
        let same : s.count + count_sum ss ≡ count_sum ss = ground arith in
        rw (none_here, stay, same) (all_experts-assign_from first ss a d.1 n.1))
  | inr several ↦ rw (several) (
      all_experts-assign_from (first + s.count) ss (insert s.node_id (experts_from first s.count) a)
        d.1 (AreNew-insert s.node_id (experts_from first s.count) a ss d.0 n.1)
      ∙ joined)
]
  where
    inserted :
        all_experts (insert s.node_id (experts_from first s.count) a)
        ≡ all_experts a ++ experts_from first s.count
    inserted = rw (
      insert-append s.node_id (experts_from first s.count) a n.0,
      all_experts-append a ((s.node_id, experts_from first s.count) ∷ []),
      append-nil (experts_from first s.count),
    )

    joined :
        all_experts (insert s.node_id (experts_from first s.count) a)
          ++ experts_from (first + s.count) (count_sum ss)
        ≡ all_experts a ++ experts_from first (s.count + count_sum ss)
    joined = rw (
      inserted,
      append_assoc (all_experts a) (experts_from first s.count)
          (experts_from (first + s.count) (count_sum ss)),
      experts_from-append first s.count (count_sum ss),
    )

AreNew-nil : (ss : List Share) → AreNew [] ss
AreNew-nil [] = tt
AreNew-nil (s ∷ ss) = (lookup-nil s.node_id, AreNew-nil ss)

final_shares-AreDistinct :
    (t : ℕ) (cs : List Candidate) (ss : List Share)
    → AreNodes cs
    → final_shares t cs ≡ some ss
    → AreDistinct ss
unfolding final_shares
final_shares-AreDistinct t cs ss h e =
    let floors = shares t (total_capacity cs) cs in
    bump-AreDistinct (t - count_sum floors) (sort_by larger_frac floors) ss e
      (AreDistinct-sort_by larger_frac floors (shares-AreDistinct t (total_capacity cs) cs h))

-- For every number of experts but 0 and every list of candidates but the empty one, of which no two
-- have one name: the planner does not leave its slice, and the experts of all nodes together are 0, 1, 2
-- and so on up to the number of experts, each exactly once.
pub plan_moe_expert_assignment-covers :
    (t : ℕ) (c : Candidate) (cs : List Candidate)
    → 0 < t
    → AreNodes (c ∷ cs)
    → (a : Assignment) × (plan_moe_expert_assignment t (c ∷ cs) ≡ planned a)
      × (all_experts a ≡ experts_from 0 t)
unfolding plan_moe_expert_assignment
plan_moe_expert_assignment-covers t c cs pos h =
    let (ss, e, sum) = final_shares_total t c cs in
    let sorted = sort_by earlier_node ss in
    let some_experts : (t == 0) ≡ false = ground arith in
    let total : count_sum sorted ≡ t = count_sum-sort_by earlier_node ss ∙ sum in
    (
      assign_from 0 sorted [],
      rw (some_experts, e, plan_moe_expert_assignment),
      all_experts-assign_from 0 sorted []
            (AreDistinct-sort_by earlier_node ss (final_shares-AreDistinct t (c ∷ cs) ss h e))
            (AreNew-nil sorted)
          ∙ rw total,
    )

any-append :
    (e : ℕ) (xs ys : List ℕ)
    → any (λ x. x == e) (xs ++ ys) ≡ (any (λ x. x == e) xs || any (λ x. x == e) ys)
any-append e [] ys = refl
any-append e (x ∷ xs) ys = ground (arith, any-append e xs ys)

any-experts_from :
    (e first n : ℕ) → first ≤ e → e < first + n → any (λ x. x == e) (experts_from first n) ≡ true
unfolding experts_from
any-experts_from e first zero h k = absurd (omega arith)
any-experts_from e first (suc n) h k = ground (arith, any-experts_from e (suc first) n)

node_of_expert-none :
    (e : ℕ) (a : Assignment) → node_of_expert e a ≡ none → any (λ x. x == e) (all_experts a) ≡ false
unfolding node_of_expert
node_of_expert-none e [] h = refl
node_of_expert-none e (x ∷ a) h =
    ground (arith, any-append e x.1 (all_experts a), node_of_expert-none e a)

route_token_to_expert_node-finds :
    (t e : ℕ) (rest : List ℕ) (a : Assignment)
    → all_experts a ≡ experts_from 0 t
    → e < t
    → (id : String) × (route_token_to_expert_node (e ∷ rest) a ≡ some id)
unfolding route_token_to_expert_node
route_token_to_expert_node-finds t e rest a all h = elim (Option-cases (node_of_expert e a)) [
  | inr (id, there) ↦ (id, there)
  | inl nowhere ↦ absurd (
      true-ne-false (
        sym (any-experts_from e 0 t (omega arith) (omega arith))
        ∙ rw all at (node_of_expert-none e a nowhere)))
]

-- With candidates of which no two have one name, a token whose first activated expert is one of the
-- planned experts is routed to a node.
pub route_token_to_expert_node-plan :
    (t e : ℕ) (rest : List ℕ) (c : Candidate) (cs : List Candidate)
    → e < t
    → AreNodes (c ∷ cs)
    → (a : Assignment) × (plan_moe_expert_assignment t (c ∷ cs) ≡ planned a)
      × ((id : String) × (route_token_to_expert_node (e ∷ rest) a ≡ some id))
route_token_to_expert_node-plan t e rest c cs known h =
    let (a, made, all) = plan_moe_expert_assignment-covers t c cs (omega (arith, known)) h in
    (a, made, route_token_to_expert_node-finds t e rest a all known)
