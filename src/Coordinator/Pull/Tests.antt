-- ===== src/Coordinator/Pull/Tests.antt =====
-- A job that its node answers twice: a late second answer is accepted and lost.
use mlx_mesh.Base.{◌+◌, ◌≤◌, ◌≡◌, refl, ◌++◌, none, some, [], length}
use mlx_mesh.Base.Dict.{lookup, insert}
use mlx_mesh.Base.Int.{pos}
use mlx_mesh.Coordinator.Router.{JobSpec}
use mlx_mesh.Coordinator.Pull.{
  JobResult, new_pull_dispatcher, queue_for, add_waiter, try_enqueue, claim, find_waiter, offer,
}
use mlx_mesh.Coordinator.Pull.System.{
  System, begins, sends, receives, fetches, submits, delivers, Reach, start, next, begin, send,
  receive, fetch, submit, deliver, initial,
}
use mlx_mesh.Coordinator.Pull.Mail.{mailbox, mailbox-IsFifo}
use mlx_mesh.Coordinator.Pull.Results.{HandedIn, outcome_of, outcome-HandedIn}
use mlx_mesh.Coordinator.Pull.Once.{held, taken, accepted-held}

abbrev job : JobSpec
job = record {
  job_id = "j1";
  model_id = "m";
  quantization_required = "";
  sensitivity = "";
  max_price_per_unit = 0;
  redundancy_depth = pos 0;
}

abbrev answer : JobResult
answer = record { result = some "4"; err = none }

abbrev again : JobResult
again = record { result = some "5"; err = none }

abbrev s1 : System
s1 = begin initial 0 "n1" job []

abbrev s2 : System
s2 = send s1 0

abbrev s3 : System
s3 = fetch s2 "n1"

abbrev s4 : System
s4 = submit s3 0 "j1" answer

abbrev s5 : System
s5 = deliver s4 0 0 answer

abbrev s6 : System
s6 = receive s5 0 answer

abbrev s7 : System
s7 = submit s6 1 "j1" again

abbrev s8 : System
s8 = deliver s7 1 0 again

sent_reached : Reach s2
unfolding begin
sent_reached = next (next start (begins 0 "n1" job [] refl)) (sends 0 refl)

answered_reached : Reach s6
unfolding begin send fetch submit deliver receive add_waiter try_enqueue queue_for claim find_waiter
    offer new_pull_dispatcher lookup insert
answered_reached =
    next
      (next (next (next sent_reached (fetches "n1")) (submits 0 "j1" answer refl))
        (delivers 0 "j1" 0 answer refl))
      (receives 0 answer refl refl)

twice_reached : Reach s8
unfolding begin send fetch submit deliver receive add_waiter try_enqueue queue_for claim find_waiter
    offer new_pull_dispatcher lookup insert
twice_reached =
    next (next answered_reached (submits 1 "j1" again refl)) (delivers 1 "j1" 0 again refl)

twice_accepted : s8.accepted 0 ≡ 2
unfolding begin send fetch submit deliver receive add_waiter try_enqueue queue_for claim find_waiter
    offer new_pull_dispatcher lookup insert
twice_accepted = refl

mailbox-IsFifo_example :
    (s2.sent "n1" ≡ s2.claimed "n1" ++ mailbox s2.dispatcher "n1")
    × (length (mailbox s2.dispatcher "n1") ≤ 16)
mailbox-IsFifo_example = mailbox-IsFifo s2 "n1" sent_reached

outcome-HandedIn_example : HandedIn (s6.calls 0).job.job_id answer s6.handed_in
unfolding begin send fetch submit deliver receive add_waiter try_enqueue queue_for claim find_waiter
    offer new_pull_dispatcher lookup insert
outcome-HandedIn_example = outcome-HandedIn s6 0 answer answered_reached refl

accepted-held_example :
    (s8.accepted 0 ≡ held (s8.channels 0) + taken (outcome_of (s8.calls 0).phase))
    × (s8.accepted 0 ≤ 2)
accepted-held_example = accepted-held s8 0 twice_reached
