-- ===== src/Coordinator/Registry/Capacity.antt =====
-- internal/coordinator/measurement_store.go, CompareSignatures of internal/bench/benchmark.go, and
-- VerifiedCapacityScore of registry.go. Rates and the tolerance are in millionths; the ratios of the
-- source are compared without dividing.
use mlx_mesh.Base.{
  ℕ, ◌+◌, ◌-◌, ◌*◌, ◌≤◌, ◌≡◌, refl, inl, inr, ◌∙◌, sym, Bool, true, false, Option, none, some, [],
  ◌∷◌, ◌++◌, ◌⊎◌, String, All, none-ne-some, Bool-cases, Option-cases, arith, if◌then◌else◌, leb,
  ◌==◌, ◌&&◌,
}
use mlx_mesh.Base.Dict.{Dict, lookup, insert}
use mlx_mesh.Coordinator.Registry.{MeasuredSignature, NodeEntry, Registry, is_live_entry}

abbrev pub MeasurementStore : Type 0
MeasurementStore = Dict MeasuredSignature

unfoldable pub store : MeasurementStore → String → MeasuredSignature → MeasurementStore
store ms id sig = insert id sig ms

unfoldable pub get : MeasurementStore → String → Option MeasuredSignature
get ms id = lookup id ms

unfoldable pub within : ℕ → ℕ → ℕ → Bool
within tolerance claim actual =
    if claim == 0
    then true
    else leb (claim * (1000000 - tolerance)) (actual * 1000000)
      && leb (actual * 1000000) (claim * (1000000 + tolerance))

unfoldable pub compare_signatures : MeasuredSignature → MeasuredSignature → ℕ → Bool
compare_signatures claimed measured tolerance =
    within tolerance claimed.tokens_per_sec_decode measured.tokens_per_sec_decode
    && within tolerance claimed.tokens_per_sec_prefill measured.tokens_per_sec_prefill

-- What an entry adds to the score.
unfoldable pub verified_rate : ℕ → MeasurementStore → ℕ → NodeEntry → ℕ
verified_rate now ms tolerance e =
    if is_live_entry now e
    then (elim e.manifest.measured_signature [
      | none ↦ 0
      | some claimed ↦ elim (get ms e.manifest.node_id) [
        | none ↦ 0
        | some measured ↦
            if compare_signatures claimed measured tolerance
            then measured.tokens_per_sec_decode
            else 0
      ]
    ])
    else 0

unfoldable pub verified_capacity_score : ℕ → MeasurementStore → ℕ → Registry → ℕ
verified_capacity_score now ms tolerance [] = 0
verified_capacity_score now ms tolerance (e ∷ r) =
    verified_rate now ms tolerance e.1 + verified_capacity_score now ms tolerance r

-- The claimed rate of a node, where one is claimed.
abbrev pub claimed_rate : NodeEntry → ℕ
claimed_rate e = elim e.manifest.measured_signature [ none ↦ 0 | some s ↦ s.tokens_per_sec_decode ]

abbrev pub claimed_total : Registry → ℕ
claimed_total [] = 0
claimed_total (e ∷ r) = claimed_rate e.1 + claimed_total r

-- A node that claims a rate at all claims one above 0.
abbrev pub IsClaim : NodeEntry → Type 0
IsClaim e = (e.manifest.measured_signature ≡ none) ⊎ ((claimed_rate e == 0) ≡ false)

within_upper :
    (tolerance claim actual : ℕ)
    → (claim == 0) ≡ false
    → within tolerance claim actual ≡ true
    → actual * 1000000 ≤ claim * (1000000 + tolerance)
unfolding within
within_upper tolerance claim actual positive h =
    let parts = rw (within, positive) at h in grind (arith, parts)

verified_rate-le :
    (now : ℕ) (ms : MeasurementStore) (tolerance : ℕ) (e : NodeEntry)
    → IsClaim e
    → verified_rate now ms tolerance e * 1000000 ≤ claimed_rate e * (1000000 + tolerance)
unfolding verified_rate compare_signatures
verified_rate-le now ms tolerance e claim = elim (Bool-cases (is_live_entry now e)) [
  | inr down ↦ rw (verified_rate, down) (omega arith)
  | inl up ↦ elim (Option-cases e.manifest.measured_signature) [
    | inl silent ↦ rw (verified_rate, up, silent) (omega arith)
    | inr (claimed, here) ↦ elim (Option-cases (get ms e.manifest.node_id)) [
      | inl unmeasured ↦ rw (verified_rate, up, here, unmeasured) (omega arith)
      | inr (measured, found) ↦ elim (Bool-cases (compare_signatures claimed measured tolerance)) [
        | inr outside ↦ rw (verified_rate, up, here, found, outside) (omega arith)
        | inl inside ↦
            rw (verified_rate, up, here, found, inside)
              (within_upper tolerance claimed.tokens_per_sec_decode measured.tokens_per_sec_decode
                (positive claimed here) (decode_within claimed measured inside))
      ]
    ]
  ]
]
  where
    positive :
        (claimed : MeasuredSignature)
        → e.manifest.measured_signature ≡ some claimed
        → (claimed.tokens_per_sec_decode == 0) ≡ false
    positive claimed here = elim claim [
      | inl silent ↦ absurd (none-ne-some claimed (sym silent ∙ here))
      | inr above ↦ rw here at above
    ]

    decode_within :
        (claimed measured : MeasuredSignature)
        → compare_signatures claimed measured tolerance ≡ true
        → within tolerance claimed.tokens_per_sec_decode measured.tokens_per_sec_decode ≡ true
    decode_within claimed measured h =
        elim (Bool-cases
          (within tolerance claimed.tokens_per_sec_decode measured.tokens_per_sec_decode)) [
            | inl yes_it_is ↦ yes_it_is
            | inr no_it_is_not ↦ cc (rw (compare_signatures, no_it_is_not) at h)
          ]

-- The score never exceeds what the nodes claim, with the tolerance, however large the measurements are
-- that were submitted, if every node that claims a rate claims one above 0.
pub verified_capacity_score-le :
    (now : ℕ) (ms : MeasurementStore) (tolerance : ℕ) (r : Registry)
    → All (λ e. IsClaim e.1) r
    → verified_capacity_score now ms tolerance r * 1000000 ≤ claimed_total r * (1000000 + tolerance)
unfolding verified_capacity_score
verified_capacity_score-le now ms tolerance [] h = omega arith
verified_capacity_score-le now ms tolerance (e ∷ r) (c, cs) =
    let first = verified_rate-le now ms tolerance e.1 c in
    let rest = verified_capacity_score-le now ms tolerance r cs in grind (arith, first, rest)

-- Nodes that are down, claim nothing, have submitted nothing, or were measured outside of the tolerance
-- leave the score as it is, however many they are.
pub verified_capacity_score_junk :
    (now : ℕ) (ms : MeasurementStore) (tolerance : ℕ) (r junk : Registry)
    → All (λ e. verified_rate now ms tolerance e.1 ≡ 0) junk
    → verified_capacity_score now ms tolerance (junk ++ r)
      ≡ verified_capacity_score now ms tolerance r
unfolding verified_capacity_score
verified_capacity_score_junk now ms tolerance r [] h = refl
verified_capacity_score_junk now ms tolerance r (e ∷ junk) (zero_rate, h) =
    rw zero_rate (omega (arith, verified_capacity_score_junk now ms tolerance r junk h))
