-- ===== src/Coordinator/Experts/Shares.antt =====
-- The counts of the largest-remainder method add up to the number of experts.
use mlx_mesh.Base.{
  ℕ, zero, suc, ◌+◌, ◌-◌, ◌*◌, ◌/◌, ◌%◌, ◌≤◌, ◌<◌, ◌≡◌, refl, ap, Bool, some, List, [], ◌∷◌, length,
  arith,
}
use native.Mathlib.Nat.{mul_comm, add-mul, le_of_mul-le-mul_right}
use mlx_mesh.Coordinator.Experts.{
  Candidate, Share, capacity, total_capacity, shares, count_sum, place_by, sort_by, larger_frac,
  bump, final_shares,
}

capacity_pos : (c : Candidate) → 0 < capacity c
unfolding capacity
capacity_pos c = ground arith

-- The remainders, over the total capacity.
frac_sum : List Share → ℕ
frac_sum [] = 0
frac_sum (s ∷ ss) = s.frac + frac_sum ss

quotient_remainder : (a m : ℕ) → 0 < m → (a / m * m + a % m ≡ a) × (a % m < m)
quotient_remainder a m h = grind arith

combine :
    (q s m r f a b t : ℕ)
    → q * m + r ≡ a * t
    → s * m + f ≡ b * t
    → (q + s) * m + (r + f) ≡ (a + b) * t
combine q s m r f a b t h k = grind arith

one_more : (r f n m : ℕ) → r < m → f ≤ n * m → r + f ≤ suc n * m
one_more r f n m h k = grind arith

-- From the sum over the total capacity to the counts.
fits : (s f n m t : ℕ) → 0 < m → s * m + f ≡ m * t → f ≤ n * m → (s ≤ t) × (t - s ≤ n)
fits s f n m t pos e h =
    let total : m * t ≡ t * m = mul_comm m t in
    let below : s ≤ t = le_of_mul-le-mul_right {k = m} (omega (arith, e, total)) pos in
    let close : t ≤ s + n =
      le_of_mul-le-mul_right {k = m} (omega (arith, e, total, h, add-mul s n m)) pos in
    (below, omega (arith, close))

shares_exact :
    (t m : ℕ) (cs : List Candidate)
    → 0 < m
    → count_sum (shares t m cs) * m + frac_sum (shares t m cs) ≡ total_capacity cs * t
unfolding shares count_sum frac_sum total_capacity
shares_exact t m [] h = omega arith
shares_exact t m (c ∷ cs) h =
    combine (capacity c * t / m) (count_sum (shares t m cs)) m ((capacity c * t) % m)
      (frac_sum (shares t m cs)) (capacity c) (total_capacity cs) t
      (quotient_remainder (capacity c * t) m h).0 (shares_exact t m cs h)

frac_sum-le : (t m : ℕ) (cs : List Candidate) → 0 < m → frac_sum (shares t m cs) ≤ length cs * m
unfolding shares frac_sum
frac_sum-le t m [] h = omega arith
frac_sum-le t m (c ∷ cs) h =
    one_more ((capacity c * t) % m) (frac_sum (shares t m cs)) (length cs) m
      (quotient_remainder (capacity c * t) m h).1 (frac_sum-le t m cs h)

length-shares : (t m : ℕ) (cs : List Candidate) → length (shares t m cs) ≡ length cs
unfolding shares
length-shares t m [] = refl
length-shares t m (c ∷ cs) = ap suc (length-shares t m cs)

count_sum-place_by :
    (before : Share → Share → Bool) (s : Share) (ss : List Share)
    → count_sum (place_by before s ss) ≡ s.count + count_sum ss
unfolding count_sum place_by
count_sum-place_by before s [] = refl
count_sum-place_by before s (t ∷ ts) = ground (arith, count_sum-place_by before s ts)

pub count_sum-sort_by :
    (before : Share → Share → Bool) (ss : List Share) → count_sum (sort_by before ss) ≡ count_sum ss
unfolding count_sum sort_by
count_sum-sort_by before [] = refl
count_sum-sort_by before (s ∷ ss) =
    omega (arith, count_sum-place_by before s (sort_by before ss), count_sum-sort_by before ss)

length-place_by :
    (before : Share → Share → Bool) (s : Share) (ss : List Share)
    → length (place_by before s ss) ≡ suc (length ss)
unfolding place_by
length-place_by before s [] = refl
length-place_by before s (t ∷ ts) = ground (arith, length-place_by before s ts)

length-sort_by :
    (before : Share → Share → Bool) (ss : List Share) → length (sort_by before ss) ≡ length ss
unfolding sort_by
length-sort_by before [] = refl
length-sort_by before (s ∷ ss) =
    omega (arith, length-place_by before s (sort_by before ss), length-sort_by before ss)

bump_total :
    (k : ℕ) (ss : List Share)
    → k ≤ length ss
    → (r : List Share) × (bump k ss ≡ some r) × (count_sum r ≡ count_sum ss + k)
unfolding bump count_sum
bump_total zero ss h = (ss, refl, omega arith)
bump_total (suc k) [] h = absurd (omega arith)
bump_total (suc k) (s ∷ ss) h =
    let (r, e, sum) = bump_total k ss (omega arith) in
    (record s { count = suc s.count } ∷ r, rw (e, bump), omega (arith, sum))

total_capacity_pos : (c : Candidate) (cs : List Candidate) → 0 < total_capacity (c ∷ cs)
unfolding total_capacity
total_capacity_pos c cs = omega (arith, capacity_pos c)

-- With a candidate, the indices stay in the slice, and the final counts add up to the number of experts.
pub final_shares_total :
    (t : ℕ) (c : Candidate) (cs : List Candidate)
    → (ss : List Share) × (final_shares t (c ∷ cs) ≡ some ss) × (count_sum ss ≡ t)
unfolding final_shares
final_shares_total t c cs =
    let m = total_capacity (c ∷ cs) in
    let pos = total_capacity_pos c cs in
    let floors = shares t m (c ∷ cs) in
    let (le, few) =
      fits (count_sum floors) (frac_sum floors) (length (c ∷ cs)) m t pos
        (shares_exact t m (c ∷ cs) pos) (frac_sum-le t m (c ∷ cs) pos) in
    let (ss, e, sum) =
      bump_total (t - count_sum floors) (sort_by larger_frac floors)
        (omega (arith, few, length-sort_by larger_frac floors, length-shares t m (c ∷ cs))) in
    (ss, e, omega (arith, sum, count_sum-sort_by larger_frac floors, le))
