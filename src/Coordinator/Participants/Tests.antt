-- ===== src/Coordinator/Participants/Tests.antt =====
-- A device that announces itself twice.
use mlx_mesh.Base.{false, [], ◌∷◌, List}
use mlx_mesh.Coordinator.Participants.{CoordinationParticipant, CoordinationRegistry, announce}
use mlx_mesh.Coordinator.Participants.Tally.{Call, announces, serves}

abbrev phone : CoordinationParticipant
phone = record {
  device_id = "d";
  role = "";
  is_mobile = false;
  geographic_hint = "";
  region = "";
  pointers_served = 0;
}

abbrev known : CoordinationRegistry
known = announce phone 0 []

abbrev calls : List Call
calls = serves "d" ∷ announces phone 9 ∷ serves "d" ∷ []
