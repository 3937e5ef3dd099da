-- ===== src/Coordinator/Router/Streaming.antt =====
-- internal/coordinator/router.go: the loop of DispatchFastLaneStreaming. What a node does with a
-- request is an argument.
mod Tests
use mlx_mesh.Base.{
  ℕ, zero, suc, ◌+◌, ◌-◌, ◌<◌, ◌≡◌, ◌⊎◌, refl, ◌∙◌, ap, inl, inr, Bool, true, false, Option, none,
  some, List, [], ◌∷◌, String, leb, if◌then◌else◌, All, take, get_elem?, Bool-cases, arith,
}
use mlx_mesh.Coordinator.Registry.{
  NodeWithLoad, Registry, mark_unreachable, record_observed_throughput, incr_in_flight,
  decr_in_flight,
}

-- A node fails before it sends anything, or after so many tokens, or sends all, with the rate to
-- record, if the reply was long enough to measure one.
pub data StreamReply : Type 0 where
  not_started : StreamReply
  broken_off : ℕ → StreamReply
  complete : ℕ → Option ℕ → StreamReply

-- What the caller gets: who served the stream, a stream that broke off, or the error that no node
-- was eligible.
pub data StreamOutcome : Type 0 where
  served : String → ℕ → StreamOutcome
  broken : ℕ → StreamOutcome
  nobody : StreamOutcome

abbrev pub Stream : Type 0
Stream = String → StreamReply

unfoldable pub dispatch_streaming :
    Stream → ℕ → ℕ → Registry → List NodeWithLoad → Registry × StreamOutcome
dispatch_streaming stream max_attempts attempted r [] = (r, nobody)
dispatch_streaming stream max_attempts attempted r (n ∷ ns) =
    let id = n.manifest.node_id in
    let r' = decr_in_flight (incr_in_flight r id) id in
    let rest = dispatch_streaming stream max_attempts (suc attempted) (mark_unreachable r' id) ns in
    if leb max_attempts attempted then (r, nobody) else elim (stream id) [
      | not_started ↦ rest
      | broken_off tokens ↦ (r', broken tokens)
      | complete tokens none ↦ (r', served id tokens)
      | complete tokens (some tps) ↦ (record_observed_throughput r' id tps, served id tokens)
    ]

-- The nodes in reach of the attempts, all of which failed before they sent anything.
abbrev pub NoneStarted : Stream → List NodeWithLoad → Type 0
NoneStarted stream ns = All (λ n. stream n.manifest.node_id ≡ not_started) ns

-- The one node whose stream reached the client.
abbrev pub IsSource : Stream → List NodeWithLoad → ℕ → StreamOutcome → Type 0
IsSource stream ns left nobody = NoneStarted stream (take left ns)
IsSource stream ns left (served id tokens) =
    (k : ℕ) × (n : NodeWithLoad) × (get_elem? ns k ≡ some n)
    × (k < left)
    × (n.manifest.node_id ≡ id)
    × ((rate : Option ℕ) × (stream id ≡ complete tokens rate))
    × NoneStarted stream (take k ns)
IsSource stream ns left (broken tokens) =
    (k : ℕ) × (n : NodeWithLoad) × (get_elem? ns k ≡ some n)
    × (k < left)
    × (stream n.manifest.node_id ≡ broken_off tokens)
    × NoneStarted stream (take k ns)

IsSource-later :
    (stream : Stream) (n : NodeWithLoad) (ns : List NodeWithLoad) (left : ℕ) (o : StreamOutcome)
    → stream n.manifest.node_id ≡ not_started
    → IsSource stream ns left o
    → IsSource stream (n ∷ ns) (suc left) o
IsSource-later stream n ns left nobody e h = (e, h)
IsSource-later stream n ns left (served id tokens) e (k, m, there, near, same, reply, before) =
    (suc k, m, there, omega arith, same, reply, (e, before))
IsSource-later stream n ns left (broken tokens) e (k, m, there, near, reply, before) =
    (suc k, m, there, omega arith, reply, (e, before))

take-nil : (n : ℕ) → take {A = NodeWithLoad} n [] ≡ []
take-nil zero = refl
take-nil (suc n) = refl

IsSource-loop :
    (stream : Stream) (left attempted max_attempts : ℕ) (r : Registry) (ns : List NodeWithLoad)
    → max_attempts ≡ attempted + left
    → IsSource stream ns left (dispatch_streaming stream max_attempts attempted r ns).1
unfolding dispatch_streaming
IsSource-loop stream left attempted max_attempts r [] e = rw (take-nil left) tt
IsSource-loop stream zero attempted max_attempts r (n ∷ ns) e =
    let spent : leb max_attempts attempted ≡ true = ground arith in
    rw (spent, dispatch_streaming) tt
IsSource-loop stream (suc left) attempted max_attempts r (n ∷ ns) e =
    let some_left : leb max_attempts attempted ≡ false = ground arith in
    go some_left
      (IsSource-loop stream left (suc attempted) max_attempts after ns (omega (arith, e)))
      (stream n.manifest.node_id) refl
  where
    after : Registry
    after =
        let id = n.manifest.node_id in mark_unreachable (decr_in_flight (incr_in_flight r id) id) id

    go :
        leb max_attempts attempted ≡ false
        → IsSource stream ns left
            (dispatch_streaming stream max_attempts (suc attempted) after ns).1
        → (reply : StreamReply) → stream n.manifest.node_id ≡ reply
        → IsSource stream
            (n ∷ ns)
            (suc left)
            (dispatch_streaming stream max_attempts attempted r (n ∷ ns)).1
    go some_left ih not_started f =
        rw (some_left, f, dispatch_streaming)
          (IsSource-later stream n ns left
            (dispatch_streaming stream max_attempts (suc attempted) after ns).1 f ih)
    go some_left ih (broken_off tokens) f =
        rw (some_left, f, dispatch_streaming) (0, n, refl, omega arith, f, tt)
    go some_left ih (complete tokens none) f =
        rw (some_left, f, dispatch_streaming) (0, n, refl, omega arith, refl, (none, f), tt)
    go some_left ih (complete tokens (some tps)) f =
        rw (some_left, f, dispatch_streaming) (0, n, refl, omega arith, refl, (some tps, f), tt)

-- With `left` attempts, the client gets bytes from at most one node: a stream that was served,
-- or that broke off, is that of one of the first `left` ranked nodes, and every node before it failed
-- before it sent anything. If nobody served the job, none of the first `left` nodes sent anything.
pub dispatch_streaming-IsSource :
    (stream : Stream) (left : ℕ) (r : Registry) (ns : List NodeWithLoad)
    → IsSource stream ns left (dispatch_streaming stream left 0 r ns).1
dispatch_streaming-IsSource stream left r ns = IsSource-loop stream left 0 left r ns (omega arith)
