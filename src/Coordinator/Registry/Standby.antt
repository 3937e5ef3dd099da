-- ===== src/Coordinator/Registry/Standby.antt =====
-- One registration stands for each ring: the others are standbys.
use mlx_mesh.Base.{
  ℕ, ◌-◌, ◌<◌, ◌≡◌, ◌≢◌, ◌⊎◌, refl, sym, ◌∙◌, inl, inr, ◌&&◌, not, true, false, Option, none, some,
  [], ◌∷◌, String, str_eq, any, Bool-cases, Option-cases, String-cases, arith, eq_iff, eq_refl,
  if◌then◌else◌, none-ne-some, true-ne-false, All,
}
use mlx_mesh.Base.Dict.{
  Dict, lookup, insert, lookup-insert, lookup-nil, lookup-cons, IsDistinct, All-of_lookup,
}
use mlx_mesh.Coordinator.Registry.{
  NodeEntry, Registry, is_live_entry, is_in_ring, precedes, best_of, is_second, seconds_of,
  cluster_standby_node_ids, is_standby,
}

abbrev signature_of : NodeEntry → String
signature_of e = e.manifest.cluster_signature

-- The nodes of a ring, by name, that were seen in the last 45 seconds and did not fail since.
abbrev pub IsMember : ℕ → Registry → String → String → Type 0
IsMember now r signature id =
    (e : NodeEntry) × (lookup id r ≡ some e)
    × (signature ≢ "")
    × (e.manifest.cluster_signature ≡ signature)
    × (now - e.last_seen < 45000000000)
    × (e.unreachable ≡ false)

-- The same by the test of the code.
abbrev IsFound : ℕ → Registry → String → String → Type 0
IsFound now r signature id =
    (e : NodeEntry) × (lookup id r ≡ some e)
    × (is_in_ring now e ≡ true)
    × (e.manifest.cluster_signature ≡ signature)

-- One step of the first loop.
choose : ℕ → String → NodeEntry → Dict String → Dict String
choose now id e best =
    if is_in_ring now e
    then elim (lookup (signature_of e) best) [
      | none ↦ insert (signature_of e) id best
      | some cur ↦ if precedes id cur then insert (signature_of e) id best else best
    ]
    else best

best_of-cons :
    (now : ℕ) (id : String) (e : NodeEntry) (r : Registry) (best : Dict String)
    → best_of now ((id, e) ∷ r) best ≡ best_of now r (choose now id e best)
unfolding best_of choose
best_of-cons now id e r best = refl

-- The step writes the node's own name under its own signature, or nothing.
choose_cases :
    (now : ℕ) (id : String) (e : NodeEntry) (best : Dict String)
    → ((is_in_ring now e ≡ true) × (choose now id e best ≡ insert (signature_of e) id best))
      ⊎ ((choose now id e best ≡ best)
          × ((is_in_ring now e ≡ false) ⊎ (lookup (signature_of e) best ≢ none)))
unfolding choose
choose_cases now id e best = ground arith

-- Every name in `best` is that of a live node of its ring.
abbrev Chosen : ℕ → Registry → Dict String → Type 0
Chosen now r best = (s b : String) → lookup s best ≡ some b → IsFound now r s b

-- The entries are entries of the registry.
abbrev AreEntries : Registry → Registry → Type 0
AreEntries r es = All (λ x. lookup x.0 r ≡ some x.1) es

some-inj : (a b : String) → ◌≡◌ {A = Option String} (some a) (some b) → a ≡ b
some-inj a b e = cc

choose-Chosen :
    (now : ℕ) (r : Registry) (id : String) (e : NodeEntry) (best : Dict String)
    → lookup id r ≡ some e
    → Chosen now r best
    → Chosen now r (choose now id e best)
choose-Chosen now r id e best here h s b found = elim (choose_cases now id e best) [
  | inr (same, _) ↦ h s b (rw same at found)
  | inl (ring, written) ↦ elim (String-cases (signature_of e) s) [
    | inl mine ↦
        (let name : id ≡ b = some-inj id b (rw (written, lookup-insert, mine, eq_refl) at found) in
          rw (← name, ← mine) (e, here, ring, refl))
    | inr not_mine ↦ h s b (rw (written, lookup-insert, not_mine) at found)
  ]
]

best_of-Chosen :
    (now : ℕ) (r es : Registry) (best : Dict String)
    → AreEntries r es
    → Chosen now r best
    → Chosen now r (best_of now es best)
unfolding best_of
best_of-Chosen now r [] best a h = h
best_of-Chosen now r ((id, e) ∷ es) best a h =
    rw (best_of-cons now id e es best)
      (best_of-Chosen now r es (choose now id e best) a.1 (choose-Chosen now r id e best a.0 h))

-- A ring that has a name in `best` keeps having one.
choose-kept :
    (now : ℕ) (id : String) (e : NodeEntry) (best : Dict String) (s : String)
    → lookup s best ≢ none
    → lookup s (choose now id e best) ≢ none
choose-kept now id e best s h = elim (choose_cases now id e best) [
  | inr (same, _) ↦ rw same h
  | inl (ring, written) ↦ rw (written, lookup-insert) (ground arith)
]

best_of-kept :
    (now : ℕ) (es : Registry) (best : Dict String) (s : String)
    → lookup s best ≢ none
    → lookup s (best_of now es best) ≢ none
unfolding best_of
best_of-kept now [] best s h = h
best_of-kept now ((id, e) ∷ es) best s h =
    rw (best_of-cons now id e es best)
      (best_of-kept now es (choose now id e best) s (choose-kept now id e best s h))

choose-named :
    (now : ℕ) (id : String) (e : NodeEntry) (best : Dict String)
    → is_in_ring now e ≡ true
    → lookup (signature_of e) (choose now id e best) ≢ none
choose-named now id e best ring = elim (choose_cases now id e best) [
  | inl (_, written) ↦ rw (written, lookup-insert, eq_refl) (ground arith)
  | inr (same, inl alone) ↦ absurd (true-ne-false (sym ring ∙ alone))
  | inr (same, inr named) ↦ rw same named
]

best_of-named :
    (now : ℕ) (es : Registry) (best : Dict String) (id : String) (e : NodeEntry)
    → lookup id es ≡ some e
    → is_in_ring now e ≡ true
    → lookup (signature_of e) (best_of now es best) ≢ none
best_of-named now [] best id e here ring = absurd (none-ne-some e (sym (lookup-nil id) ∙ here))
best_of-named now ((k, f) ∷ es) best id e here ring = elim (String-cases k id) [
  | inl same ↦
      (let entry : f ≡ e = entry-inj (rw (lookup-cons, same, eq_refl) at here) in
        rw (best_of-cons now k f es best) (
          best_of-kept now es (choose now k f best) (signature_of e)
            (rw (← entry) (choose-named now k f best (rw entry ring)))))
  | inr differs ↦
      rw (best_of-cons now k f es best)
        (best_of-named now es (choose now k f best) id e (rw (lookup-cons, differs) at here) ring)
]
  where
    entry-inj : ◌≡◌ {A = Option NodeEntry} (some f) (some e) → f ≡ e
    entry-inj h = cc

-- The standbys are the nodes that `is_second` says.
seconds_of-absent :
    (now : ℕ) (best : Dict String) (r : Registry) (id : String)
    → lookup id r ≡ none
    → any (str_eq id) (seconds_of now best r) ≡ false
unfolding seconds_of lookup
seconds_of-absent now best [] id h = refl
seconds_of-absent now best ((k, e) ∷ r) id h =
    ground (arith, eq_iff k id, eq_iff id k, seconds_of-absent now best r id)

seconds_of-found :
    (now : ℕ) (best : Dict String) (r : Registry) (id : String) (e : NodeEntry)
    → IsDistinct r
    → lookup id r ≡ some e
    → any (str_eq id) (seconds_of now best r) ≡ is_second now best id e
unfolding seconds_of lookup
seconds_of-found now best [] id e d h = absurd (none-ne-some e h)
seconds_of-found now best ((k, f) ∷ r) id e d h = elim (String-cases k id) [
  | inl same ↦
      (let entry : f ≡ e = entry-inj (rw (lookup-cons, same, eq_refl) at h) in
        let rest : any (str_eq id) (seconds_of now best r) ≡ false =
          seconds_of-absent now best r id (rw same at d.0) in
        rw (same, entry) (here rest))
  | inr differs ↦
      (let rest : any (str_eq id) (seconds_of now best r) ≡ is_second now best id e =
          seconds_of-found now best r id e d.1 (rw (lookup-cons, differs) at h) in
        let other : str_eq id k ≡ false = ground (arith, eq_iff k id, eq_iff id k) in
        elim (Bool-cases (is_second now best k f)) [
          | inl second ↦ rw (second, other) rest
          | inr first ↦ rw first rest
        ])
]
  where
    entry-inj : ◌≡◌ {A = Option NodeEntry} (some f) (some e) → f ≡ e
    entry-inj h = cc

    here :
        any (str_eq id) (seconds_of now best r) ≡ false
        → any
            (str_eq id)
            (if is_second now best id e then id ∷ seconds_of now best r else seconds_of now best r)
          ≡ is_second now best id e
    here rest = elim (Bool-cases (is_second now best id e)) [
      | inl second ↦ rw (second, eq_refl id)
      | inr first ↦ rw (first, rest)
    ]

entries_of : (r : Registry) → IsDistinct r → AreEntries r r
entries_of r d = All-of_lookup (λ u v. lookup u r ≡ some v) r d (λ u v h. h)

-- A member of a ring is a standby exactly if another name was chosen.
is_standby-chosen :
    (now : ℕ) (r : Registry) (signature id : String)
    → IsDistinct r
    → IsFound now r signature id
    → ((is_standby now r id ≡ false) × (lookup signature (best_of now r []) ≡ some id))
      ⊎ ((is_standby now r id ≡ true) × (lookup signature (best_of now r []) ≢ some id))
unfolding is_standby cluster_standby_node_ids is_second
is_standby-chosen now r signature id d (e, here, ring, mine) =
    rw (seconds_of-found now (best_of now r []) r id e d here)
      (decide (lookup (signature_of e) (best_of now r [])) mine_best named ring)
  where
    named : lookup (signature_of e) (best_of now r []) ≢ none
    named = best_of-named now r [] id e here ring

    mine_best : lookup (signature_of e) (best_of now r []) ≡ lookup signature (best_of now r [])
    mine_best = rw mine

    decide :
        (chosen : Option String)
        → chosen ≡ lookup signature (best_of now r [])
        → chosen ≢ none
        → is_in_ring now e ≡ true
        → let second =
            is_in_ring now e && not (str_eq (elim chosen [ none ↦ "" | some b ↦ b ]) id) in
          ((second ≡ false) × (lookup signature (best_of now r []) ≡ some id))
          ⊎ ((second ≡ true) × (lookup signature (best_of now r []) ≢ some id))
    decide none same h ring = absurd (h refl)
    decide (some b) same h ring = ground (arith, eq_iff b id)

IsMember-IsFound :
    (now : ℕ) (r : Registry) (signature id : String)
    → IsMember now r signature id
    → IsFound now r signature id
unfolding is_in_ring is_live_entry
IsMember-IsFound now r signature id (e, here, named, mine, recent, up) =
    (e, here, ground (arith, eq_iff e.manifest.cluster_signature ""), mine)

IsFound-IsMember :
    (now : ℕ) (r : Registry) (signature id : String)
    → IsFound now r signature id
    → IsMember now r signature id
unfolding is_in_ring is_live_entry
IsFound-IsMember now r signature id (e, here, ring, mine) = (
  e,
  here,
  ground (arith, eq_iff e.manifest.cluster_signature ""),
  mine,
  ground arith,
  ground arith,
)

IsFound-represented :
    (now : ℕ) (r : Registry) (signature id : String)
    → IsDistinct r
    → IsFound now r signature id
    → (b : String) × IsFound now r signature b × (is_standby now r b ≡ false)
IsFound-represented now r signature id d member =
    elim (Option-cases (lookup signature (best_of now r []))) [
      | inl nobody ↦ absurd (named nobody)
      | inr (b, chosen) ↦
          (let rep : IsFound now r signature b =
              best_of-Chosen now r r [] (entries_of r d)
                (λ s c h. absurd (none-ne-some c (sym (lookup-nil s) ∙ h))) signature b chosen in
            (
              b,
              rep,
              elim (is_standby-chosen now r signature b d rep) [
                | inl (first, _) ↦ first
                | inr (_, other) ↦ absurd (other chosen)
              ],
            ))
    ]
  where
    named : lookup signature (best_of now r []) ≢ none
    named =
        let (e, here, ring, mine) = member in rw (← mine) (best_of-named now r [] id e here ring)

-- At any time, every ring with a live node has a live node that is no standby: a duplicate never hides
-- the whole ring, and when the node that stood for it dies another takes its place.
pub is_standby_represented :
    (now : ℕ) (r : Registry) (signature id : String)
    → IsDistinct r
    → IsMember now r signature id
    → (b : String) × IsMember now r signature b × (is_standby now r b ≡ false)
is_standby_represented now r signature id d member =
    let (b, rep, first) =
      IsFound-represented now r signature id d (IsMember-IsFound now r signature id member) in
    (b, IsFound-IsMember now r signature b rep, first)

-- At any time, two live nodes of one ring that are both no standbys are the same node: a ring is
-- never dispatched to, probed or counted under two names.
pub is_standby_unique :
    (now : ℕ) (r : Registry) (signature i j : String)
    → IsDistinct r
    → IsFound now r signature i
    → IsFound now r signature j
    → is_standby now r i ≡ false
    → is_standby now r j ≡ false
    → i ≡ j
is_standby_unique now r signature i j d mi mj hi hj =
    some-inj i j (sym (chosen_by i mi hi) ∙ chosen_by j mj hj)
  where
    chosen_by :
        (k : String)
        → IsFound now r signature k
        → is_standby now r k ≡ false
        → lookup signature (best_of now r []) ≡ some k
    chosen_by k m h = elim (is_standby-chosen now r signature k d m) [
      | inl (_, chosen) ↦ chosen
      | inr (second, _) ↦ absurd (true-ne-false (sym second ∙ h))
    ]
