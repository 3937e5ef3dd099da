-- ===== src/Coordinator/Router/Dispatch.antt =====
-- Where a job can end up, and what its failures leave behind.
use mlx_mesh.Base.{
  ℕ, zero, suc, ◌-◌, ◌≡◌, ◌≢◌, ◌⊎◌, refl, sym, ap, subst, ◌∙◌, inl, inr, Bool, true, false, Option,
  none, some, List, [], ◌∷◌, String, str_eq, All, leb, take, get_elem?, ◌≤◌, ℕ-cases, arith, eq_iff,
  eq_refl, if◌then◌else◌, Bool-cases, Option-cases, String-cases, none-ne-some, if_same,
}
use mlx_mesh.Base.Int.{ℤ}
use mlx_mesh.Base.Dict.{lookup, insert, lookup-insert}
use mlx_mesh.Coordinator.Registry.{
  ModelCapability, CapabilityManifest, NodeEntry, NodeWithLoad, Registry, has_model,
  model_is_loaded, first_is_loaded, serves_model, update_entry, is_live_entry, is_live,
  mark_unreachable, record_observed_throughput, incr_in_flight, decr_in_flight,
}
use mlx_mesh.Coordinator.Router.{
  JobSpec, Score, score_for_fast_lane, effective_manifest, score_of, over_ceiling, eligible,
  Deliver, dispatch_ranked,
}

-- The model that a job asks for, loaded, is among some models.
abbrev pub HasLoaded : JobSpec → List ModelCapability → Type 0
HasLoaded job models =
    (k : ℕ) × (m : ModelCapability) × (get_elem? models k ≡ some m)
    × (m.model_id ≡ job.model_id)
    × ((job.quantization_required ≡ "") ⊎ (m.quantization ≡ job.quantization_required))
    × (m.loaded ≡ true)

-- No price, no ceiling, or a price up to the ceiling.
abbrev pub IsAffordable : JobSpec → Option ℕ → Type 0
IsAffordable job price =
    (job.max_price_per_unit ≡ 0)
    ⊎ ((price ≡ none) ⊎ ((c : ℕ) × (price ≡ some c) × (c ≤ job.max_price_per_unit)))

-- What an eligible node has.
abbrev pub IsEligible : JobSpec → NodeWithLoad → Type 0
IsEligible job n =
    ((job.sensitivity ≢ "high_requires_attestation") ⊎ (n.enclave_attested ≡ true))
    × HasLoaded job n.manifest.models
    × IsAffordable job n.manifest.compute_cycles_price

model_is_loaded-HasLoaded :
    (job : JobSpec) (ms : List ModelCapability)
    → first_is_loaded job.model_id job.quantization_required ms ≡ true
    → HasLoaded job ms
unfolding first_is_loaded serves_model
model_is_loaded-HasLoaded job [] h = cc
model_is_loaded-HasLoaded job (m ∷ ms) h =
    elim (Bool-cases (serves_model job.model_id job.quantization_required m)) [
      | inl serves ↦ (
        0,
        m,
        refl,
        serves_id serves,
        serves_quantization serves,
        rw (first_is_loaded, serves) at h,
      )
      | inr other ↦
          (let (k, c, there, named, quantized, up) =
              model_is_loaded-HasLoaded job ms (rw (first_is_loaded, other) at h) in
            (suc k, c, there, named, quantized, up))
    ]
  where
    serves_id :
        serves_model job.model_id job.quantization_required m ≡ true → m.model_id ≡ job.model_id
    serves_id h = ground (arith, eq_iff m.model_id job.model_id)

    serves_quantization :
        serves_model job.model_id job.quantization_required m ≡ true
        → (job.quantization_required ≡ "") ⊎ (m.quantization ≡ job.quantization_required)
    serves_quantization h = ground (
      arith,
      eq_iff job.quantization_required "",
      eq_iff m.quantization job.quantization_required,
    )

loaded_of :
    (manifest : CapabilityManifest) (job : JobSpec)
    → model_is_loaded manifest job.model_id job.quantization_required ≡ true
    → first_is_loaded job.model_id job.quantization_required manifest.models ≡ true
unfolding model_is_loaded
loaded_of manifest job h = h

over_ceiling-IsAffordable :
    (job : JobSpec) (node : CapabilityManifest)
    → over_ceiling node job ≡ false
    → IsAffordable job node.compute_cycles_price
unfolding over_ceiling
over_ceiling-IsAffordable job node h = elim (Option-cases node.compute_cycles_price) [
  | inl free ↦ inr (inl free)
  | inr (c, price) ↦
      (let under = rw (over_ceiling, price) at h in
        elim (ℕ-cases job.max_price_per_unit 0) [
          | inl unlimited ↦ inl (ground (arith, unlimited))
          | inr bounded ↦ inr (inr (c, price, ground (arith, bounded, under)))
        ])
]

effective_models :
    (n : NodeWithLoad) (job : JobSpec)
    → (has_model (effective_manifest n) job.model_id job.quantization_required
        ≡ has_model n.manifest job.model_id job.quantization_required)
      × (model_is_loaded (effective_manifest n) job.model_id job.quantization_required
          ≡ model_is_loaded n.manifest job.model_id job.quantization_required)
      × (over_ceiling (effective_manifest n) job ≡ over_ceiling n.manifest job)
unfolding effective_manifest has_model model_is_loaded over_ceiling
effective_models n job = elim (Option-cases n.observed_tps) [
  | inl never ↦ rw (never, effective_manifest) (refl, refl, refl)
  | inr (tps, observed) ↦ rw (observed, effective_manifest) (refl, refl, refl)
]

scored :
    (node : CapabilityManifest) (job : JobSpec) (in_flight : ℤ) (attested : Bool) (s : Score)
    → score_for_fast_lane node job in_flight attested ≡ some s
    → ((job.sensitivity ≢ "high_requires_attestation") ⊎ (attested ≡ true))
      × (has_model node job.model_id job.quantization_required ≡ true)
      × (model_is_loaded node job.model_id job.quantization_required ≡ true)
      × (over_ceiling node job ≡ false)
unfolding score_for_fast_lane
scored node job in_flight attested s h =
    ground (arith, eq_iff job.sensitivity "high_requires_attestation")

score_of-IsEligible :
    (job : JobSpec) (n : NodeWithLoad) (s : Score) → score_of job n ≡ some s → IsEligible job n
unfolding score_of
score_of-IsEligible job n s h =
    let (gate, model, loaded, price) =
      scored (effective_manifest n) job n.in_flight n.enclave_attested s h in
    let (same_model, same_loaded, same_price) = effective_models n job in
    (
      gate,
      model_is_loaded-HasLoaded job n.manifest.models
          (loaded_of n.manifest job (sym same_loaded ∙ loaded)),
      over_ceiling-IsAffordable job n.manifest (sym same_price ∙ price),
    )

-- Every node that is left to be ranked has what the job needs: an attestation that the coordinator
-- has verified, if the job is of the highest sensitivity, whatever the node declares of itself; the
-- model, and loaded; and a price that is not above the ceiling.
pub eligible-IsEligible :
    (job : JobSpec) (ns : List NodeWithLoad) → All (IsEligible job) (eligible job ns)
unfolding eligible
eligible-IsEligible job [] = tt
eligible-IsEligible job (n ∷ ns) = elim (Option-cases (score_of job n)) [
  | inl barred ↦ rw (barred, eligible) (eligible-IsEligible job ns)
  | inr (s, score) ↦
      rw (score, eligible) (score_of-IsEligible job n s score, eligible-IsEligible job ns)
]

is_live-insert :
    (now : ℕ) (k id : String) (e : NodeEntry) (r : Registry)
    → is_live now (insert k e r) id
      ≡ (if str_eq k id then is_live_entry now e else is_live now r id)
unfolding is_live
is_live-insert now k id e r =
    ap (λ x. elim x [ none ↦ false | some f ↦ is_live_entry now f ]) (lookup-insert k id e r)
    ∙ elim (Bool-cases (str_eq k id)) [ inl same ↦ rw same | inr differs ↦ rw differs ]

is_live-found :
    (now : ℕ) (id : String) (e : NodeEntry) (r : Registry)
    → lookup id r ≡ some e
    → is_live now r id ≡ is_live_entry now e
unfolding is_live
is_live-found now id e r here = rw (here, is_live)

is_live-missing :
    (now : ℕ) (id : String) (r : Registry) → lookup id r ≡ none → is_live now r id ≡ false
unfolding is_live
is_live-missing now id r missing = rw (missing, is_live)

-- An update of one entry that keeps it live, or dead, keeps every node so.
is_live_kept :
    (now : ℕ) (k id : String) (f : NodeEntry → NodeEntry) (r : Registry)
    → ((e : NodeEntry) → is_live_entry now (f e) ≡ is_live_entry now e)
    → is_live now (update_entry k f r) id ≡ is_live now r id
unfolding update_entry
is_live_kept now k id f r keeps = elim (Option-cases (lookup k r)) [
  | inl missing ↦ rw (missing, update_entry)
  | inr (e, here) ↦ elim (String-cases k id) [
    | inl same ↦
        rw (here, update_entry, is_live-insert, same, eq_refl id)
          (keeps e ∙ sym (is_live-found now id e r (rw same at here)))
    | inr differs ↦ rw (here, update_entry, is_live-insert, differs)
  ]
]

flight_kept :
    (now : ℕ) (k id : String) (r : Registry)
    → is_live now (decr_in_flight (incr_in_flight r k) k) id ≡ is_live now r id
unfolding decr_in_flight incr_in_flight is_live_entry
flight_kept now k id r =
    is_live_kept now k id _ (incr_in_flight r k) (λ e. refl) ∙ is_live_kept now k id _ r (λ e. refl)

observed_kept :
    (now : ℕ) (k id : String) (r : Registry) (tps : ℕ)
    → is_live now (record_observed_throughput r k tps) id ≡ is_live now r id
unfolding record_observed_throughput is_live_entry
observed_kept now k id r tps = elim (Bool-cases (leb tps 0)) [
  | inl idle ↦ rw (idle, record_observed_throughput)
  | inr busy ↦ rw (busy, record_observed_throughput) (is_live_kept now k id _ r (λ e. refl))
]

marked_entry :
    (now : ℕ) (e : NodeEntry) → is_live_entry now (record e { unreachable = true }) ≡ false
unfolding is_live_entry
marked_entry now e = ground arith

-- A node that is out stays out when another, or itself, is marked, and a node that is marked is out.
marked_out :
    (now : ℕ) (k id : String) (r : Registry)
    → is_live now (mark_unreachable r k) id ≡ (if str_eq k id then false else is_live now r id)
unfolding mark_unreachable update_entry is_live
marked_out now k id r = elim (Option-cases (lookup k r)) [
  | inl missing ↦ elim (String-cases k id) [
    | inl same ↦
        rw (missing, update_entry, same, eq_refl id) (is_live-missing now id r (rw same at missing))
    | inr differs ↦ rw (missing, update_entry, differs)
  ]
  | inr (e, here) ↦ rw (here, update_entry, is_live-insert, marked_entry now e)
]

-- What becomes of the registry when the first node fails.
abbrev after_failure : Registry → String → Registry
after_failure r k = mark_unreachable (decr_in_flight (incr_in_flight r k) k) k

dispatch_next :
    (deliver : Deliver) (max_attempts attempted : ℕ) (r : Registry) (n : NodeWithLoad)
    (ns : List NodeWithLoad)
    → leb max_attempts attempted ≡ false
    → deliver n.manifest.node_id ≡ none
    → dispatch_ranked deliver max_attempts attempted r (n ∷ ns)
      ≡ dispatch_ranked deliver max_attempts (suc attempted) (after_failure r n.manifest.node_id) ns
unfolding dispatch_ranked
dispatch_next deliver max_attempts attempted r n ns more lost = rw (more, lost)

-- Without an attempt left nothing was served, and the first node that answers has served.
dispatch_answered :
    (deliver : Deliver) (max_attempts attempted : ℕ) (r : Registry) (n : NodeWithLoad)
    (ns : List NodeWithLoad) (reply : Option ℕ)
    → leb max_attempts attempted ≡ false
    → deliver n.manifest.node_id ≡ some reply
    → (dispatch_ranked deliver max_attempts attempted r (n ∷ ns)).1 ≡ some n.manifest.node_id
unfolding dispatch_ranked
dispatch_answered deliver max_attempts attempted r n ns none more delivered = rw (more, delivered)
dispatch_answered deliver max_attempts attempted r n ns (some tps) more delivered =
    rw (more, delivered)

module _ (now : ℕ) (deliver : Deliver) (max_attempts : ℕ) where
  still_out :
      (k id : String) (r : Registry)
      → is_live now r id ≡ false
      → is_live now (mark_unreachable r k) id ≡ false
  still_out k id r out = rw (marked_out, out) (if_same (str_eq k id) false)

  dispatch_out :
      (attempted : ℕ) (r : Registry) (ns : List NodeWithLoad) (id : String)
      → is_live now r id ≡ false
      → is_live now (dispatch_ranked deliver max_attempts attempted r ns).0 id ≡ false
  unfolding dispatch_ranked
  dispatch_out attempted r [] id out = out
  dispatch_out attempted r (n ∷ ns) id out =
      let k = n.manifest.node_id in
      let flown : is_live now (decr_in_flight (incr_in_flight r k) k) id ≡ false =
        flight_kept now k id r ∙ out in
      elim (Bool-cases (leb max_attempts attempted)) [
        | inl enough ↦ rw (enough, dispatch_ranked) out
        | inr more ↦ elim (Option-cases (deliver k)) [
          | inl failed ↦
              rw (more, failed, dispatch_ranked)
                (dispatch_out (suc attempted) _ ns id (still_out k id _ flown))
          | inr (reply, delivered) ↦ elim (Option-cases reply) [
            | inl short ↦ rw (more, delivered, short, dispatch_ranked) flown
            | inr (tps, measured) ↦
                rw (more, delivered, measured, dispatch_ranked)
                  (observed_kept now k id _ tps ∙ flown)
          ]
        ]
      ]

  -- A job that no node has served leaves every node that it was tried on out of service, as many of
  -- the first in the list as there were attempts.
  pub dispatch_ranked-failed :
      (attempted : ℕ) (r : Registry) (ns : List NodeWithLoad)
      → (dispatch_ranked deliver max_attempts attempted r ns).1 ≡ none
      → All
          (λ n.
            is_live now (dispatch_ranked deliver max_attempts attempted r ns).0 n.manifest.node_id
            ≡ false)
          (take (max_attempts - attempted) ns)
  dispatch_ranked-failed attempted r [] failed = none_tried _ (max_attempts - attempted)
    where
      none_tried : (P : NodeWithLoad → Type 0) (k : ℕ) → All P (take k [])
      none_tried P zero = tt
      none_tried P (suc k) = tt
  dispatch_ranked-failed attempted r (n ∷ ns) failed =
      let k = n.manifest.node_id in
      elim (Bool-cases (leb max_attempts attempted)) [
        | inl enough ↦ (let no_more : max_attempts - attempted ≡ 0 = ground arith in rw no_more tt)
        | inr more ↦
            (let one_more : max_attempts - attempted ≡ suc (max_attempts - suc attempted) =
                ground arith in
              elim (Option-cases (deliver k)) [
                | inl lost ↦
                    (let next = dispatch_next deliver max_attempts attempted r n ns more lost in
                      rw one_more (
                        subst
                          (λ d.
                            All (λ m. is_live now d.0 m.manifest.node_id ≡ false)
                              (take (suc (max_attempts - suc attempted)) (n ∷ ns)))
                          (sym next)
                          (
                            dispatch_out (suc attempted) (after_failure r k) ns k
                                (marked_out now k k _ ∙ rw (eq_refl k)),
                            dispatch_ranked-failed (suc attempted) (after_failure r k) ns
                                (rw next at failed),
                          )))
                | inr (reply, delivered) ↦ absurd (
                    none-ne-some k (
                      sym failed
                      ∙ dispatch_answered deliver max_attempts attempted r n ns reply more
                          delivered))
              ])
      ]

-- A job that was served was served by one of the nodes of the list, and the delivery to it succeeded.
pub dispatch_ranked-served :
    (deliver : Deliver) (max_attempts attempted : ℕ) (r : Registry) (ns : List NodeWithLoad)
    (P : NodeWithLoad → Type 0) (id : String)
    → All P ns
    → (dispatch_ranked deliver max_attempts attempted r ns).1 ≡ some id
    → (n : NodeWithLoad) × P n × (n.manifest.node_id ≡ id) × (deliver id ≢ none)
unfolding dispatch_ranked
dispatch_ranked-served deliver max_attempts attempted r [] P id h served =
    absurd (none-ne-some id served)
dispatch_ranked-served deliver max_attempts attempted r (n ∷ ns) P id h served =
    let k = n.manifest.node_id in
    elim (Bool-cases (leb max_attempts attempted)) [
      | inl enough ↦ absurd (none-ne-some id (rw (enough, dispatch_ranked) at served))
      | inr more ↦ elim (Option-cases (deliver k)) [
        | inl failed ↦
            dispatch_ranked-served deliver max_attempts (suc attempted) _ ns P id h.1
              (rw (more, failed, dispatch_ranked) at served)
        | inr (reply, delivered) ↦ elim (Option-cases reply) [
          | inl short ↦ here (rw (more, delivered, short, dispatch_ranked) at served) delivered
          | inr (tps, measured) ↦
              here (rw (more, delivered, measured, dispatch_ranked) at served) delivered
        ]
      ]
    ]
  where
    here :
        {reply : Option ℕ}
        → ◌≡◌ {A = Option String} (some n.manifest.node_id) (some id)
        → deliver n.manifest.node_id ≡ some reply
        → (n : NodeWithLoad) × P n × (n.manifest.node_id ≡ id) × (deliver id ≢ none)
    here {reply} named delivered =
        let same : n.manifest.node_id ≡ id = cc in
        (n, h.0, same, λ nothing. none-ne-some reply (sym nothing ∙ (rw same at delivered)))
