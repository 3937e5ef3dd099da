-- ===== src/Coordinator/Router/Ranking/Order.antt =====
-- Ranking reorders the eligible candidates.
use mathlib.Core.List.{Perm}
use mathlib.Core.List.Perm
use mlx_mesh.Base.{
  ℕ, zero, suc, ◌≡◌, refl, ap, subst, inl, inr, Option, some, List, [], ◌∷◌, map, String, ltb,
  get_elem?, length, Bool-cases, Option-cases, none-ne-some,
}
use mlx_mesh.Coordinator.Registry.{NodeWithLoad}
use mlx_mesh.Coordinator.Ring.{Hashing}
use mlx_mesh.Coordinator.Router.{JobSpec, eligible, score_of}
use mlx_mesh.Coordinator.Router.Ranking.{
  Message, ScoredCandidate, better, scored, place, sort_scored, set, swap_front,
  prompt_affinity_key, promote_affinity_node, power_of_two, ranked_for, rank_candidates,
}

place-perm : (c : ScoredCandidate) (ds : List ScoredCandidate) → Perm (place c ds) (c ∷ ds)
unfolding place
place-perm c [] = Perm.refl (c ∷ [])
place-perm c (d ∷ ds) = elim (Bool-cases (better d.score c.score)) [
  | inl later ↦ rw (later, place) (Perm.trans (Perm.cons d (place-perm c ds)) (Perm.swap c d ds))
  | inr here ↦ rw (here, place) (Perm.refl (c ∷ d ∷ ds))
]

pub sort_scored-perm : (cs : List ScoredCandidate) → Perm (sort_scored cs) cs
unfolding sort_scored
sort_scored-perm [] = Perm.refl []
sort_scored-perm (c ∷ cs) =
    Perm.trans (place-perm c (sort_scored cs)) (Perm.cons c (sort_scored-perm cs))

candidate_inj : (c d : ScoredCandidate) → ◌≡◌ {A = Option ScoredCandidate} (some c) (some d) → c ≡ d
candidate_inj c d e = cc

set-perm :
    (cs : List ScoredCandidate) (i : ℕ) (c d : ScoredCandidate)
    → get_elem? cs i ≡ some d
    → Perm (d ∷ set cs i c) (c ∷ cs)
set-perm [] i c d e = absurd (none-ne-some d e)
set-perm (x ∷ xs) zero c d e =
    subst (λ z. Perm (z ∷ c ∷ xs) (c ∷ x ∷ xs)) (candidate_inj x d e) (Perm.swap c x xs)
set-perm (x ∷ xs) (suc i) c d e =
    Perm.trans (Perm.swap x d (set xs i c))
      (Perm.trans (Perm.cons x (set-perm xs i c d e)) (Perm.swap c x xs))

pub swap_front-perm : (cs : List ScoredCandidate) (i : ℕ) → Perm (swap_front cs i) cs
unfolding swap_front
swap_front-perm [] i = Perm.refl []
swap_front-perm (c ∷ cs) zero = Perm.refl (c ∷ cs)
swap_front-perm (c ∷ cs) (suc i) = elim (Option-cases (get_elem? cs i)) [
  | inl past ↦ rw (past, swap_front) (Perm.refl (c ∷ cs))
  | inr (d, there) ↦ rw (there, swap_front) (set-perm cs i c d there)
]

power_of_two-perm : (a b : ℕ) (cs : List ScoredCandidate) → Perm (power_of_two a b cs) cs
unfolding power_of_two
power_of_two-perm a b cs = elim (Bool-cases (ltb 1 (length cs))) [
  | inl several ↦ rw (several, power_of_two) (swap_front-perm cs _)
  | inr few ↦ rw (few, power_of_two) (Perm.refl cs)
]

pub ranked_for-perm :
    (hs : Hashing) (cut : String → String) (a b : ℕ) (job : JobSpec) (messages : List Message)
    (candidates : List NodeWithLoad)
    → Perm (ranked_for hs cut a b job messages candidates) (scored job candidates)
unfolding ranked_for
ranked_for-perm hs cut a b job messages candidates =
    let ranked = sort_scored (scored job candidates) in
    let best_first = sort_scored-perm (scored job candidates) in
    elim (Option-cases (promote_affinity_node hs (prompt_affinity_key cut job messages) ranked)) [
      | inl nowhere ↦
          rw (nowhere, ranked_for) (Perm.trans (power_of_two-perm a b ranked) best_first)
      | inr (i, preferred) ↦
          rw (preferred, ranked_for) (Perm.trans (swap_front-perm ranked i) best_first)
    ]

map-scored :
    (job : JobSpec) (ns : List NodeWithLoad) → map (λ c. c.node) (scored job ns) ≡ eligible job ns
unfolding scored eligible
map-scored job [] = refl
map-scored job (n ∷ ns) = elim (Option-cases (score_of job n)) [
  | inl out ↦ rw (out, scored, eligible) (map-scored job ns)
  | inr (s, inside) ↦ rw (inside, scored, eligible) (ap (λ r. n ∷ r) (map-scored job ns))
]

-- Whatever the messages, the hash and the random draws, the ranked nodes are the eligible candidates,
-- each as often as it is among them: neither affinity nor the random choice drops or repeats a node, or
-- lets in one that is not eligible.
pub rank_candidates-perm :
    (hs : Hashing) (cut : String → String) (a b : ℕ) (candidates : List NodeWithLoad)
    (job : JobSpec) (messages : List Message)
    → Perm (rank_candidates hs cut a b candidates job messages) (eligible job candidates)
unfolding rank_candidates
rank_candidates-perm hs cut a b candidates job messages = rw (← map-scored job candidates) (
    Perm.map (λ (c : ScoredCandidate). c.node) (ranked_for-perm hs cut a b job messages candidates))
