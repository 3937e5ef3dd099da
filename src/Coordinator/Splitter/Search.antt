-- ===== src/Coordinator/Splitter/Search.antt =====
-- The search for a boundary: what it finds is one, and none is nearer to the middle.
use mlx_mesh.Base.{
  ℕ, zero, suc, ◌+◌, ◌-◌, ◌/◌, ◌≤◌, ◌<◌, ◌≡◌, ◌⊎◌, refl, inl, inr, ◌&&◌, Bool, true, false, Option,
  none, some, length, leb, ◌==◌, arith, Bool-cases,
}
use mlx_mesh.Coordinator.Splitter.{
  Bytes, SplitStrategy, sql_statement, log_entry, paragraph_boundary, semantic_sentence,
  fixed_token_count, byte_at, nearest, behind, is_paragraph_end, is_sentence_end,
  nearest_sql_boundary, nearest_line_boundary, nearest_paragraph_boundary,
  nearest_sentence_boundary, find_midpoint,
}

-- How far an offset is from the middle.
abbrev pub distance : ℕ → ℕ → ℕ
distance i mid = (i - mid) + (mid - i)

-- The search from `delta` on: a hit at a distance between `delta` and the last round, with no hit from
-- `delta` on that is nearer, or none at all.
abbrev Searched : (ℕ → Bool) → ℕ → ℕ → ℕ → Option ℕ → Type 0
Searched hit mid rounds delta none =
    (j : ℕ) → (distance j mid < delta) ⊎ ((delta + rounds ≤ distance j mid) ⊎ (hit j ≡ false))
Searched hit mid rounds delta (some i) =
    (hit i ≡ true)
    × (distance i mid < delta + rounds)
    × ((j : ℕ) → (distance j mid < delta) ⊎ ((distance i mid ≤ distance j mid) ⊎ (hit j ≡ false)))

-- The two offsets at one distance.
at_distance :
    (j mid : ℕ) → (j ≡ mid + distance j mid) ⊎ ((distance j mid ≤ mid) × (j ≡ mid - distance j mid))
at_distance j mid = ground arith

module _ (hit : ℕ → Bool) (mid delta : ℕ) (above : hit (mid + delta) ≡ false)
    (below : (leb delta mid && hit (mid - delta)) ≡ false) where
  miss_here : (j : ℕ) → distance j mid ≡ delta → hit j ≡ false
  miss_here j same = elim (at_distance j mid) [
    | inl up ↦ (let here : j ≡ mid + delta = omega (arith, up) in rw here above)
    | inr (low, down) ↦
        (let here : j ≡ mid - delta = omega (arith, down) in
          let reached : leb delta mid ≡ true = ground arith in rw here (rw reached at below))
  ]

  -- One round that finds nothing at its distance hands on what the later rounds find.
  missed :
      (rounds : ℕ) (found : Option ℕ)
      → Searched hit mid rounds (suc delta) found
      → Searched hit mid (suc rounds) delta found
  missed rounds none rest = λ j. elim (rest j) [
    | inl near ↦ elim (split_near j near) [
      | inl nearer ↦ inl nearer
      | inr same ↦ inr (inr (miss_here j same))
    ]
    | inr (inl far) ↦ inr (inl (omega (arith, far)))
    | inr (inr miss) ↦ inr (inr miss)
  ]
    where
      split_near :
          (j : ℕ) → distance j mid < suc delta → (distance j mid < delta) ⊎ (distance j mid ≡ delta)
      split_near j h = ground arith
  missed rounds (some i) (hits, within, rest) = (
    hits,
    omega (arith, within),
    λ j. elim (rest j) [
      | inl near ↦ elim (split_near j near) [
        | inl nearer ↦ inl nearer
        | inr same ↦ inr (inr (miss_here j same))
      ]
      | inr (inl far) ↦ inr (inl far)
      | inr (inr miss) ↦ inr (inr miss)
    ],
  )
    where
      split_near :
          (j : ℕ) → distance j mid < suc delta → (distance j mid < delta) ⊎ (distance j mid ≡ delta)
      split_near j h = ground arith

hit_below :
    (hit : ℕ → Bool) (mid delta : ℕ)
    → (leb delta mid && hit (mid - delta)) ≡ true
    → (delta ≤ mid) × (hit (mid - delta) ≡ true)
hit_below hit mid delta h = ground arith

near_or_far :
    {P : Type 0} (j mid delta i : ℕ)
    → distance i mid ≡ delta
    → (distance j mid < delta) ⊎ ((distance i mid ≤ distance j mid) ⊎ P)
near_or_far j mid delta i h = ground arith

nearest-Searched :
    (hit : ℕ → Bool) (mid rounds delta : ℕ)
    → Searched hit mid rounds delta (nearest hit mid rounds delta)
unfolding nearest
nearest-Searched hit mid zero delta = λ j. omega arith
nearest-Searched hit mid (suc rounds) delta = elim (Bool-cases (hit (mid + delta))) [
  | inl above ↦
      rw (above, nearest)
        (above, omega arith, λ j. near_or_far j mid delta (mid + delta) (omega arith))
  | inr not_above ↦ elim (Bool-cases (leb delta mid && hit (mid - delta))) [
    | inl below ↦
        rw (not_above, below, nearest)
          (let (low, hits) = hit_below hit mid delta below in
            (
              hits,
              omega (arith, low),
              λ j. near_or_far j mid delta (mid - delta) (omega (arith, low)),
            ))
    | inr not_below ↦
        rw (not_above, not_below, nearest)
          (missed hit mid delta not_above not_below rounds _
            (nearest-Searched hit mid rounds (suc delta)))
  ]
]

-- A cut behind a hit that no other hit is nearer to the middle than, or no hit at all in reach.
abbrev pub Found : (ℕ → Bool) → ℕ → ℕ → ℕ → Type 0
Found hit mid width k =
    (i : ℕ) × (k ≡ i + width)
    × (hit i ≡ true)
    × ((j : ℕ) → (distance i mid ≤ distance j mid) ⊎ (hit j ≡ false))

abbrev pub Absent : (ℕ → Bool) → ℕ → ℕ → Type 0
Absent hit mid rounds = (j : ℕ) → (rounds ≤ distance j mid) ⊎ (hit j ≡ false)

abbrev pub IsNearestCut : (ℕ → Bool) → ℕ → ℕ → ℕ → ℕ → Type 0
IsNearestCut hit mid rounds width k = Found hit mid width k ⊎ ((k ≡ mid) × Absent hit mid rounds)

abbrev pub IsCut : Bytes → ℕ → ℕ → SplitStrategy → Type 0
IsCut content mid k sql_statement = IsNearestCut (byte_at 59 content) mid (length content / 2) 1 k
IsCut content mid k log_entry = IsNearestCut (byte_at 10 content) mid (length content / 2) 1 k
IsCut content mid k paragraph_boundary =
    Found (is_paragraph_end content) mid 2 k
    ⊎ (Absent (is_paragraph_end content) mid (length content / 2 - 1)
        × IsNearestCut (byte_at 10 content) mid (length content / 2) 1 k)
IsCut content mid k semantic_sentence =
    IsNearestCut (is_sentence_end content) mid (length content / 2 - 1) 2 k
IsCut content mid k fixed_token_count =
    IsNearestCut (is_sentence_end content) mid (length content / 2 - 1) 2 k

not_nearer : {P : Type 0} (a b : ℕ) → (a < 0) ⊎ ((b ≤ a) ⊎ P) → (b ≤ a) ⊎ P
not_nearer a b (inl h) = omega (arith, h)
not_nearer a b (inr h) = h

out_of_reach : {P : Type 0} (a r : ℕ) → (a < 0) ⊎ ((0 + r ≤ a) ⊎ P) → (r ≤ a) ⊎ P
out_of_reach a r (inl h) = omega (arith, h)
out_of_reach a r (inr (inl h)) = inl (omega (arith, h))
out_of_reach a r (inr (inr p)) = inr p

module _ (hit : ℕ → Bool) (mid rounds : ℕ) where
  -- What a search from the middle on has shown.
  searched :
      (found : Option ℕ)
      → Searched hit mid rounds 0 found
      → (width : ℕ)
      → (((i : ℕ) × (found ≡ some i)) × Found hit mid width (behind mid width found))
        ⊎ ((found ≡ none) × Absent hit mid rounds)
  unfolding behind
  searched none h width = inr (refl, λ j. out_of_reach (distance j mid) rounds (h j))
  searched (some i) (hits, _, nearer) width =
      inl ((i, refl), (i, refl, hits, λ j. not_nearer (distance j mid) (distance i mid) (nearer j)))

  behind-IsNearestCut :
      (width : ℕ) → IsNearestCut hit mid rounds width (behind mid width (nearest hit mid rounds 0))
  unfolding behind
  behind-IsNearestCut width =
      elim (searched (nearest hit mid rounds 0) (nearest-Searched hit mid rounds 0) width) [
        | inl (_, found) ↦ inl found
        | inr (missing, absent) ↦ inr (rw (missing, behind), absent)
      ]

nearest_paragraph_boundary-IsCut :
    (content : Bytes) (mid : ℕ)
    → IsCut content mid (nearest_paragraph_boundary content mid) paragraph_boundary
unfolding nearest_paragraph_boundary nearest_line_boundary behind
nearest_paragraph_boundary-IsCut content mid =
    elim (searched hit mid rounds (nearest hit mid rounds 0) (nearest-Searched hit mid rounds 0)
      2) [
        | inl ((i, here), found) ↦
            rw (here, nearest_paragraph_boundary) (inl (rw (here, behind) at found))
        | inr (missing, absent) ↦
            rw (missing, nearest_paragraph_boundary)
              (inr (absent, behind-IsNearestCut (byte_at 10 content) mid (length content / 2) 1))
      ]
  where
    hit : ℕ → Bool
    hit = is_paragraph_end content

    rounds : ℕ
    rounds = length content / 2 - 1

-- The offset that `find_midpoint` gives is right behind a boundary of the strategy, with none nearer to
-- the middle; it is the middle itself only if no boundary is in reach. Paragraphs give way to lines
-- only if no paragraph ends in reach.
pub find_midpoint-IsCut :
    (content : Bytes) (strategy : SplitStrategy)
    → 2 ≤ length content
    → IsCut content (length content / 2) (find_midpoint content strategy) strategy
unfolding find_midpoint nearest_sql_boundary nearest_line_boundary nearest_sentence_boundary
find_midpoint-IsCut content strategy h =
    rw (not_short content h, find_midpoint) (by_strategy strategy)
  where
    not_short : (content : Bytes) → 2 ≤ length content → (length content / 2 == 0) ≡ false
    not_short content h = ground arith

    mid : ℕ
    mid = length content / 2

    by_strategy :
        (strategy : SplitStrategy)
        → IsCut content mid
            (elim strategy [
              | sql_statement ↦ nearest_sql_boundary content mid
              | log_entry ↦ nearest_line_boundary content mid
              | paragraph_boundary ↦ nearest_paragraph_boundary content mid
              | semantic_sentence ↦ nearest_sentence_boundary content mid
              | fixed_token_count ↦ nearest_sentence_boundary content mid
            ])
            strategy
    by_strategy sql_statement = behind-IsNearestCut (byte_at 59 content) mid (length content / 2) 1
    by_strategy log_entry = behind-IsNearestCut (byte_at 10 content) mid (length content / 2) 1
    by_strategy paragraph_boundary = nearest_paragraph_boundary-IsCut content mid
    by_strategy semantic_sentence =
        behind-IsNearestCut (is_sentence_end content) mid (length content / 2 - 1) 2
    by_strategy fixed_token_count =
        behind-IsNearestCut (is_sentence_end content) mid (length content / 2 - 1) 2
