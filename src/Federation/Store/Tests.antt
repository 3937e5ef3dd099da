-- ===== src/Federation/Store/Tests.antt =====
-- A pod's own history, with a write that fails: internal/federation/store.go.
use mlx_mesh.Base.{
  ℕ, ◌+◌, ◌<◌, ◌≡◌, refl, inr, Bool, true, false, some, List, [], ◌∷◌, map, length, arith,
}
use mlx_mesh.Base.Int.{pos}
use mlx_mesh.Federation.Event.{LedgerEvent}
use mlx_mesh.Federation.Store.{
  u64_mod, Tables, new_store, load_from_db, append_self_event, self_row,
}
use mlx_mesh.Federation.Store.History.{
  append_all, IsNumbered, IsGapless, nameless, load_from_db-restart,
}

abbrev empty_tables : Tables
empty_tables = record { self_events = []; witnessed_events = []; peer_keys = [] }

abbrev credit_of : ℕ → LedgerEvent
credit_of n = record {
  pod_id = "a";
  sequence = n;
  event_type = "earned";
  user_id = "u";
  amount = pos 1500000;
  issued_at = "t";
  public_key = "k";
  signature = "s";
}

abbrev appends : List (Bool × LedgerEvent)
appends =
    (true, credit_of 1) ∷ (false, credit_of 2) ∷ (true, credit_of 3) ∷ (true, credit_of 2) ∷ []

abbrev tables : Tables
tables = record empty_tables { self_events = map self_row (credit_of 1 ∷ credit_of 2 ∷ []) }

run_file : (append_all (new_store (some empty_tables)) appends).db ≡ some tables
unfolding append_all append_self_event new_store self_row
run_file = refl

empty-IsGapless : IsGapless (new_store (some empty_tables))
unfolding new_store
empty-IsGapless = (tt, refl, inr (empty_tables, refl, refl))

load_from_db-restart_example :
    let s' = append_all (new_store (some empty_tables)) appends in
    IsNumbered 1 s'.self_events
    × (s'.next_seq ≡ 1 + length s'.self_events)
    × ((load_from_db tables tables).next_seq ≡ s'.next_seq)
    × ((load_from_db tables tables).self_events ≡ map nameless s'.self_events)
unfolding new_store
load_from_db-restart_example =
    load_from_db-restart (new_store (some empty_tables)) appends tables empty-IsGapless room
      run_file
  where
    room : 1 + length (new_store (some empty_tables)).self_events + length appends < u64_mod
    room = omega arith
