-- ===== src/Coordinator/Parallel/Fanout.antt =====
-- The goroutines of DispatchSubTasksInParallel of router.go, and the results that they leave.
use mlx_mesh.Base.{
  ℕ, zero, suc, ◌%◌, ◌≤◌, ◌<◌, ◌≡◌, ◌≢◌, ◌⊎◌, refl, sym, ap, subst, ◌∙◌, inl, inr, true, false,
  Option, none, some, List, [], ◌∷◌, map, String, arith, ◌==◌, if◌then◌else◌, length, get_elem?,
  any, Bool-cases, Option-cases, ℕ-cases,
}
use mlx_mesh.Coordinator.Registry.{CapabilityManifest}
use mlx_mesh.Coordinator.Parallel.Json.{Fields}
use mlx_mesh.Coordinator.Parallel.Decompose.{SubTask}
use mlx_mesh.Coordinator.Parallel.Merge.{Dispatch, target_from_manifest}
use mlx_mesh.Coordinator.Parallel.Route.{
  Progress, set_result, work_item, wait_for_dependencies, dispatch_sub_task, finish_item,
  finish_all, dispatch_sub_tasks_in_parallel,
}

set_result-same :
    (i : ℕ) (r : Option Fields) (xs : List (Option Fields))
    → i < length xs
    → get_elem? (set_result i r xs) i ≡ some r
unfolding set_result
set_result-same i r [] h = absurd (omega (arith, h))
set_result-same zero r (x ∷ xs) h = refl
set_result-same (suc i) r (x ∷ xs) h = set_result-same i r xs (omega (arith, h))

set_result-other :
    (i j : ℕ) (r : Option Fields) (xs : List (Option Fields))
    → i ≢ j
    → get_elem? (set_result i r xs) j ≡ get_elem? xs j
unfolding set_result
set_result-other i j r [] h = refl
set_result-other zero zero r (x ∷ xs) h = absurd (h refl)
set_result-other zero (suc j) r (x ∷ xs) h = refl
set_result-other (suc i) zero r (x ∷ xs) h = refl
set_result-other (suc i) (suc j) r (x ∷ xs) h = set_result-other i j r xs (omega (arith, h))

length-set_result :
    (i : ℕ) (r : Option Fields) (xs : List (Option Fields)) → length (set_result i r xs) ≡ length xs
unfolding set_result
length-set_result i r [] = refl
length-set_result zero r (x ∷ xs) = refl
length-set_result (suc i) r (x ∷ xs) = ap suc (length-set_result i r xs)

get_elem?-some {ℓ} :
    {A : Type ℓ} (xs : List A) (i : ℕ) → i < length xs → (x : A) × (get_elem? xs i ≡ some x)
get_elem?-some [] i h = absurd (omega (arith, h))
get_elem?-some (x ∷ xs) zero h = (x, refl)
get_elem?-some (x ∷ xs) (suc i) h = get_elem?-some xs i (omega (arith, h))

length-nones : (ts : List SubTask) → length (map {B = Option Fields} (λ t. none) ts) ≡ length ts
length-nones [] = refl
length-nones (t ∷ ts) = ap suc (length-nones ts)

work_item_eq :
    (tasks : List SubTask) (nodes : List CapabilityManifest) (i : ℕ) (t : SubTask)
    (n : CapabilityManifest)
    → get_elem? tasks i ≡ some t
    → get_elem? nodes (i % length nodes) ≡ some n
    → work_item tasks nodes i ≡ some (t, n)
unfolding work_item
work_item_eq tasks nodes i t n task node = rw (task, node, work_item)

module _ (tls : CapabilityManifest → String) (dispatch : Dispatch) (seen : ℕ → ℕ → List String)
    (tasks : List SubTask) (nodes : List CapabilityManifest) where
  -- What the node of an index answers to its sub-task.
  abbrev pub Answers : ℕ → Option Fields → Type 0
  Answers i r =
      (t : SubTask) × (n : CapabilityManifest) × (get_elem? tasks i ≡ some t)
      × (get_elem? nodes (i % length nodes) ≡ some n)
      × (dispatch_sub_task dispatch (target_from_manifest tls n) t ≡ some r)

  answer_of : ℕ → Option (Option Fields)
  answer_of i = elim (work_item tasks nodes i) [
    | none ↦ none
    | some (t, n) ↦
        if wait_for_dependencies (seen i) t
        then dispatch_sub_task dispatch (target_from_manifest tls n) t
        else none
  ]

  finish_item_cases :
      (p : Progress) (i : ℕ)
      → let p' = finish_item tls dispatch seen tasks nodes p i in
        ((work_item tasks nodes i ≡ none) × (p' ≡ p))
        ⊎ (((answer_of i ≡ none) × (p' ≡ record p { errors = suc p.errors }))
            ⊎ ((r : Option Fields) × (answer_of i ≡ some r)
                × (p' ≡ record p { results = set_result i r p.results })))
  unfolding finish_item answer_of
  finish_item_cases p i = elim (Option-cases (work_item tasks nodes i)) [
    | inl absent ↦ inl (absent, rw (absent, finish_item))
    | inr ((t, n), here) ↦ elim (Bool-cases (wait_for_dependencies (seen i) t)) [
      | inr late ↦ inr (inl (rw (here, late, answer_of), rw (here, late, finish_item)))
      | inl ready ↦
          elim (Option-cases (dispatch_sub_task dispatch (target_from_manifest tls n) t)) [
            | inl failed ↦
                inr
                  (inl (rw (here, ready, failed, answer_of), rw (here, ready, failed, finish_item)))
            | inr (r, ok) ↦
                inr (inr (r, rw (here, ready, ok, answer_of), rw (here, ready, ok, finish_item)))
          ]
    ]
  ]

  answer_of-Answers : (i : ℕ) (r : Option Fields) → answer_of i ≡ some r → Answers i r
  unfolding answer_of work_item
  answer_of-Answers i r h = elim (Option-cases (get_elem? tasks i)) [
    | inl absent ↦ cc (rw (answer_of, work_item, absent) at h)
    | inr (t, task) ↦ elim (Option-cases (get_elem? nodes (i % length nodes))) [
      | inl absent ↦ cc (rw (answer_of, work_item, task, absent) at h)
      | inr (n, node) ↦ elim (Bool-cases (wait_for_dependencies (seen i) t)) [
        | inr late ↦ cc (rw (answer_of, work_item, task, node, late) at h)
        | inl ready ↦ (t, n, task, node, rw (answer_of, work_item, task, node, ready) at h)
      ]
    ]
  ]

  finish_all_errors :
      (p : Progress) (is : List ℕ)
      → p.errors ≤ (finish_all tls dispatch seen tasks nodes p is).errors
  unfolding finish_all
  finish_all_errors p [] = omega arith
  finish_all_errors p (i ∷ is) =
      let rest = finish_all_errors (finish_item tls dispatch seen tasks nodes p i) is in
      elim (finish_item_cases p i) [
        | inl (_, same) ↦ omega (arith, rest, ap (λ (q : Progress). q.errors) same)
        | inr (inl (_, failed)) ↦ omega (arith, rest, ap (λ (q : Progress). q.errors) failed)
        | inr (inr (r, _, set)) ↦ omega (arith, rest, ap (λ (q : Progress). q.errors) set)
      ]

  length-finish_all :
      (p : Progress) (is : List ℕ)
      → length (finish_all tls dispatch seen tasks nodes p is).results ≡ length p.results
  unfolding finish_all
  length-finish_all p [] = refl
  length-finish_all p (i ∷ is) =
      length-finish_all (finish_item tls dispatch seen tasks nodes p i) is
      ∙ elim (finish_item_cases p i) [
        | inl (_, same) ↦ ap (λ (q : Progress). length q.results) same
        | inr (inl (_, failed)) ↦ ap (λ (q : Progress). length q.results) failed
        | inr (inr (r, _, set)) ↦
            ap (λ (q : Progress). length q.results) set ∙ length-set_result i r p.results
      ]

  -- There are as many entries as sub-tasks.
  pub length-dispatch_sub_tasks :
      (order : List ℕ) (results : List (Option Fields))
      → dispatch_sub_tasks_in_parallel tls dispatch seen order tasks nodes ≡ some results
      → length results ≡ length tasks
  unfolding dispatch_sub_tasks_in_parallel
  length-dispatch_sub_tasks order results h = elim (Bool-cases (length nodes == 0)) [
    | inl nobody ↦ cc (rw (dispatch_sub_tasks_in_parallel, nobody) at h)
    | inr somebody ↦ elim (Bool-cases (last.errors == 0)) [
      | inr errors ↦ cc (rw (dispatch_sub_tasks_in_parallel, somebody, errors) at h)
      | inl clean ↦
          (let done : last.results ≡ results =
              some-inj _ _ (rw (dispatch_sub_tasks_in_parallel, somebody, clean) at h) in
            ap length (sym done) ∙ length-finish_all start order ∙ length-nones tasks)
    ]
  ]
    where
      start : Progress
      start = record { results = map (λ t. none) tasks; errors = 0 }

      last : Progress
      last = finish_all tls dispatch seen tasks nodes start order

      some-inj :
          (a b : List (Option Fields))
          → ◌≡◌ {A = Option (List (Option Fields))} (some a) (some b)
          → a ≡ b
      some-inj a b e = cc

  abbrev Stays : List ℕ → ℕ → Option Fields → Progress → Type 0
  Stays is j r p = get_elem? (finish_all tls dispatch seen tasks nodes p is).results j ≡ some r

  -- A result that is there stays.
  finish_all_keeps :
      (p : Progress) (is : List ℕ) (j : ℕ) (r : Option Fields)
      → answer_of j ≡ some r
      → j < length p.results
      → get_elem? p.results j ≡ some r
      → get_elem? (finish_all tls dispatch seen tasks nodes p is).results j ≡ some r
  unfolding finish_all
  finish_all_keeps p [] j r a room h = h
  finish_all_keeps p (i ∷ is) j r a room h = elim (finish_item_cases p i) [
    | inl (_, same) ↦ subst (Stays is j r) (sym same) (finish_all_keeps p is j r a room h)
    | inr (inl (_, failed)) ↦
        subst (Stays is j r) (sym failed)
          (finish_all_keeps (record p { errors = suc p.errors }) is j r a room h)
    | inr (inr (r', a', set)) ↦ subst (Stays is j r) (sym set) (
        finish_all_keeps (record p { results = set_result i r' p.results }) is j r a
          (rw length-set_result room) (kept i r' a'))
  ]
    where
      kept :
          (i : ℕ) (r' : Option Fields)
          → answer_of i ≡ some r'
          → get_elem? (set_result i r' p.results) j ≡ some r
      kept i r' a' = elim (ℕ-cases i j) [
        | inl same ↦
            (let one : r' ≡ r = some-inj r' r (sym a' ∙ ap answer_of same ∙ a) in
              rw (same, one) (set_result-same j r p.results room))
        | inr differs ↦ set_result-other i j r' p.results (ground (arith, differs)) ∙ h
      ]
        where
          some-inj :
              (a b : Option Fields) → ◌≡◌ {A = Option (Option Fields)} (some a) (some b) → a ≡ b
          some-inj a b e = cc

  -- Without an error the index has its answer in the end.
  abbrev Settles : List ℕ → ℕ → Progress → Type 0
  Settles is j p =
      (finish_all tls dispatch seen tasks nodes p is).errors ≡ p.errors
      → (r : Option Fields) × (answer_of j ≡ some r)
        × (get_elem? (finish_all tls dispatch seen tasks nodes p is).results j ≡ some r)

  -- Without an error, each index of the order has its answer in its place.
  finish_all_sets :
      (p : Progress) (is : List ℕ) (j : ℕ) (w : SubTask × CapabilityManifest)
      → work_item tasks nodes j ≡ some w
      → j < length p.results
      → any (λ i. i == j) is ≡ true
      → Settles is j p
  unfolding finish_all
  finish_all_sets p [] j w here room listed clean = cc
  finish_all_sets p (i ∷ is) j w here room listed clean =
      let p' = finish_item tls dispatch seen tasks nodes p i in
      let grown = finish_all_errors p' is in
      elim (finish_item_cases p i) [
        | inr (inl (_, failed)) ↦
            absurd (omega (arith, grown, clean, ap (λ (q : Progress). q.errors) failed))
        | inl (absent, same) ↦
            (let later : any (λ k. k == j) is ≡ true = elim (ℕ-cases i j) [
              | inl mine ↦ cc (rw mine at absent)
              | inr other ↦ rw other at listed
            ] in
              subst (Settles is j) (sym same) (finish_all_sets p is j w here room later)
                (clean ∙ sym (ap (λ (q : Progress). q.errors) same)))
        | inr (inr (r, a, set)) ↦
            (let q : Progress = record p { results = set_result i r p.results } in
              let roomy : j < length q.results = rw length-set_result room in
              subst (Settles is j) (sym set)
                (λ clean'. elim (ℕ-cases i j) [
                  | inl mine ↦
                      (let here' : answer_of j ≡ some r = rw (← mine) a in
                        (
                          r,
                          here',
                          finish_all_keeps q is j r here' roomy
                              (rw mine (set_result-same j r p.results room)),
                        ))
                  | inr other ↦ finish_all_sets q is j w here roomy (rw other at listed) clean'
                ])
                (clean ∙ sym (ap (λ (q : Progress). q.errors) set)))
      ]

  -- If the sub-tasks are dispatched without an error, then in whichever order their goroutines finish,
  -- as long as that of a sub-task is among them, there are as many entries as sub-tasks, and the entry
  -- of the sub-task is what the node it was assigned to answered, the nodes taking turns. An answer may
  -- be the nil map.
  pub dispatch_sub_tasks-Answers :
      (order : List ℕ) (results : List (Option Fields)) (j : ℕ)
      → dispatch_sub_tasks_in_parallel tls dispatch seen order tasks nodes ≡ some results
      → j < length tasks
      → any (λ i. i == j) order ≡ true
      → (length results ≡ length tasks)
        × (r : Option Fields) × (get_elem? results j ≡ some r)
        × Answers j r
  unfolding dispatch_sub_tasks_in_parallel
  dispatch_sub_tasks-Answers order results j h room listed = elim (Bool-cases (length nodes == 0)) [
    | inl nobody ↦ cc (rw (dispatch_sub_tasks_in_parallel, nobody) at h)
    | inr somebody ↦ elim (Bool-cases (last.errors == 0)) [
      | inr errors ↦ cc (rw (dispatch_sub_tasks_in_parallel, somebody, errors) at h)
      | inl clean ↦
          (let done : last.results ≡ results =
              some-inj _ _ (rw (dispatch_sub_tasks_in_parallel, somebody, clean) at h) in
            let (t, task) = get_elem?-some tasks j room in
            let (n, node) = get_elem?-some nodes (j % length nodes) (mod_lt somebody) in
            let work : work_item tasks nodes j ≡ some (t, n) =
              work_item_eq tasks nodes j t n task node in
            let all : length start.results ≡ length tasks = length-nones tasks in
            let (r, a, found) =
              finish_all_sets start order j (t, n) work (omega (arith, all, room)) listed
                (ground arith) in
            (
              ap length (sym done) ∙ length-finish_all start order ∙ all,
              r,
              ap (λ l. get_elem? l j) (sym done) ∙ found,
              answer_of-Answers j r a,
            ))
    ]
  ]
    where
      start : Progress
      start = record { results = map (λ t. none) tasks; errors = 0 }

      last : Progress
      last = finish_all tls dispatch seen tasks nodes start order

      some-inj :
          (a b : List (Option Fields))
          → ◌≡◌ {A = Option (List (Option Fields))} (some a) (some b)
          → a ≡ b
      some-inj a b e = cc

      mod_lt : (length nodes == 0) ≡ false → j % length nodes < length nodes
      mod_lt h = grind arith
