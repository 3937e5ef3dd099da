-- ===== src/Federation/Store.antt =====
-- internal/federation/store.go. The SQLite file is three tables of rows; `exec` says whether a write to
-- it succeeds. The mutex makes each method one step.
pub mod Cases
pub mod History
mod Tests
use mlx_mesh.Base.{
  ℕ, ◌+◌, ◌-◌, ◌^◌, ◌%◌, Bool, true, false, Option, none, some, List, [], ◌∷◌, ◌++◌, map, not,
  String, str_eq, ltb, leb, ◌==◌, if◌then◌else◌, keep,
}
use mlx_mesh.Base.Dict.{Dict, lookup, insert}
use mlx_mesh.Base.Int.{ℤ, pos, ◌+ℤ◌}
use mlx_mesh.Federation.Event.{LedgerEvent, VerifySignature, verify_self_consistent}

-- The columns of `federation_self_events`: the pod's name is not among them.
pub record SelfRow : Type 0 where
  pub sequence : ℕ
  pub event_type : String
  pub user_id : String
  pub amount : ℤ
  pub issued_at : String
  pub public_key : String
  pub signature : String

pub record Tables : Type 0 where
  pub self_events : List SelfRow
  pub witnessed_events : List LedgerEvent
  pub peer_keys : Dict String

pub record Store : Type 0 where
  pub db : Option Tables
  pub self_events : List LedgerEvent
  pub next_seq : ℕ
  pub peer_keys : Dict String
  pub witnessed : Dict (List LedgerEvent)

pub data StoreError : Type 0 where
  bad_sequence bad_signature key_mismatch forked_history not_persisted : StoreError

-- `uint64`.
abbrev pub u64_mod : ℕ
u64_mod = 18446744073709551616

unfoldable pub new_store : Option Tables → Store
new_store db = record { db = db; self_events = []; next_seq = 1; peer_keys = []; witnessed = [] }

-- `s.witnessed[podID]`, which is empty for a pod that is not there.
unfoldable pub events_of : Dict (List LedgerEvent) → String → List LedgerEvent
events_of witnessed pod = elim (lookup pod witnessed) [ none ↦ [] | some es ↦ es ]

unfoldable pub self_row : LedgerEvent → SelfRow
self_row e = record {
  sequence = e.sequence;
  event_type = e.event_type;
  user_id = e.user_id;
  amount = e.amount;
  issued_at = e.issued_at;
  public_key = e.public_key;
  signature = e.signature;
}

unfoldable pub scan_self : SelfRow → LedgerEvent
scan_self r = record {
  pod_id = "";
  sequence = r.sequence;
  event_type = r.event_type;
  user_id = r.user_id;
  amount = r.amount;
  issued_at = r.issued_at;
  public_key = r.public_key;
  signature = r.signature;
}

-- The sequence number after the rows, from a first guess.
unfoldable pub next_after : ℕ → List SelfRow → ℕ
next_after next [] = next
next_after next (r ∷ rs) =
    next_after (if leb next r.sequence then (r.sequence + 1) % u64_mod else next) rs

unfoldable pub scan_witnessed : Dict (List LedgerEvent) → List LedgerEvent → Dict (List LedgerEvent)
scan_witnessed w [] = w
scan_witnessed w (e ∷ es) = scan_witnessed (insert e.pod_id (events_of w e.pod_id ++ (e ∷ [])) w) es

unfoldable pub scan_keys : Dict String → Dict String → Dict String
scan_keys keys [] = keys
scan_keys keys (r ∷ rs) = scan_keys (insert r.0 r.1 keys) rs

-- On the rows as the three queries return them.
unfoldable pub load_from_db : Tables → Tables → Store
load_from_db db rows = record {
  db = some db;
  self_events = map scan_self rows.self_events;
  next_seq = next_after 1 rows.self_events;
  witnessed = scan_witnessed [] rows.witnessed_events;
  peer_keys = scan_keys [] rows.peer_keys;
}

unfoldable pub append_self_event : Bool → Store → LedgerEvent → Store × Option StoreError
append_self_event exec s evt =
    let mirrored = record s {
      self_events = s.self_events ++ (evt ∷ []);
      next_seq = (s.next_seq + 1) % u64_mod;
    } in
    if evt.sequence == s.next_seq
    then (elim s.db [
      | none ↦ (mirrored, none)
      | some t ↦
          if exec
          then (
            record mirrored {
              db = some (record t { self_events = t.self_events ++ (self_row evt ∷ []) });
            },
            none,
          )
          else (s, some not_persisted)
    ])
    else (s, some bad_sequence)

unfoldable pub self_events_since : ℕ → Store → List LedgerEvent
self_events_since since s = keep (λ e. ltb since e.sequence) s.self_events

unfoldable pub pinned_peer_key : String → Store → Option String
pinned_peer_key pod s = lookup pod s.peer_keys

unfoldable pub pin_peer_key_locked : Bool → Store → String → String → Store × Bool
pin_peer_key_locked exec s pod key =
    let pinned = record s { peer_keys = insert pod key s.peer_keys } in
    elim s.db [
      | none ↦ (pinned, true)
      | some t ↦
          if exec
          then (
            record pinned { db = some (record t { peer_keys = t.peer_keys ++ ((pod, key) ∷ []) }) },
            true,
          )
          else (s, false)
    ]

-- The first event with a sequence number.
unfoldable pub at_sequence : ℕ → List LedgerEvent → Option LedgerEvent
at_sequence seq [] = none
at_sequence seq (e ∷ es) = if e.sequence == seq then some e else at_sequence seq es

-- The rest of `StoreWitnessedEvent`, once the key is the pinned one.
unfoldable pub store_pinned : Bool → Store → LedgerEvent → Store × Option StoreError
store_pinned exec s evt =
    let known = events_of s.witnessed evt.pod_id in
    let stored = record s { witnessed = insert evt.pod_id (known ++ (evt ∷ [])) s.witnessed } in
    elim (at_sequence evt.sequence known) [
      | some existing ↦
          if str_eq existing.signature evt.signature then (s, none) else (s, some forked_history)
      | none ↦ elim s.db [
        | none ↦ (stored, none)
        | some t ↦
            if exec
            then (
              record stored {
                db = some (record t { witnessed_events = t.witnessed_events ++ (evt ∷ []) });
              },
              none,
            )
            else (s, some not_persisted)
      ]
    ]

-- `exec_key` and `exec` are the outcomes of the two writes.
unfoldable pub store_witnessed_event :
    VerifySignature → Bool → Bool → Store → LedgerEvent → Store × Option StoreError
store_witnessed_event verify_signature exec_key exec s evt =
    if verify_self_consistent verify_signature evt
    then (elim (lookup evt.pod_id s.peer_keys) [
      | some pinned ↦
          if str_eq pinned evt.public_key then store_pinned exec s evt else (s, some key_mismatch)
      | none ↦
          let (s', written) = pin_peer_key_locked exec_key s evt.pod_id evt.public_key in
          if written then store_pinned exec s' evt else (s', some not_persisted)
    ])
    else (s, some bad_signature)

unfoldable pub highest : ℕ → List LedgerEvent → ℕ
highest top [] = top
highest top (e ∷ es) = highest (if ltb top e.sequence then e.sequence else top) es

unfoldable pub witnessed_high_watermark : String → Store → ℕ
witnessed_high_watermark pod s = highest 0 (events_of s.witnessed pod)

unfoldable pub gross : String → ℤ → List LedgerEvent → ℤ
gross user total [] = total
gross user total (e ∷ es) =
    gross user (if str_eq e.user_id user then total +ℤ e.amount else total) es

unfoldable pub witnessed_gross_credits : String → String → Store → ℤ
witnessed_gross_credits pod user s = gross user (pos 0) (events_of s.witnessed pod)
