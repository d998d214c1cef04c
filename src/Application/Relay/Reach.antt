-- ===== src/Application/Relay/Reach.antt =====
-- The runs of the relay, the recovery and the submissions, in any order and however often.
use pipeline_server.Prelude.{ℕ, String}
use pipeline_server.Effects.Keeps.{Keeps}
use pipeline_server.Domain.Outbox.{create_analyze_event}
use pipeline_server.Domain.Outbox.Lifecycle.{create_analyze_event-IsSound}
use pipeline_server.Domain.Ports.{now}
use pipeline_server.Application.Relay.{OutboxRelayService, relay, recover_zombies}
use pipeline_server.Application.Relay.Sound.{
  Sound, save-AllSound, relay-Sound, recover_zombies-Sound,
}
use pipeline_server.Python.{Datetime}

-- The states that a sequence of jobs leads to, each job being run to its end or to its exception.
pub data Reaches {S : Type 0} (service : OutboxRelayService S) (start : S) : S → Type 0 where
  begin : Reaches service start start
  relayed : (s : S) → Reaches service start s → Reaches service start (relay service s).1
  recovered :
      (minutes : ℕ) (s : S)
      → Reaches service start s
      → Reaches service start (recover_zombies service minutes s).1
  submitted :
      (message_id task_id : String) (t : Datetime) (s : S)
      → Reaches service start s
      → Reaches service start
          (service.outbox_repo.save (create_analyze_event message_id task_id t) s).1

-- Over a clock and a dispatcher that keep the stored messages sound, every state that is reached
-- from a sound one is sound, whatever raises on the way: a stored message is FAILED exactly if
-- its retries are used up, and it has not used more of them than its limit.
pub Reaches-Sound :
    {S : Type 0} (service : OutboxRelayService S) (start s : S)
    → Keeps (Sound service) (now service.clock)
    → ((task_id : String) → Keeps (Sound service) (service.task_dispatcher.dispatch task_id))
    → Sound service start
    → Reaches service start s
    → Sound service s
Reaches-Sound service start _ clock dispatch sound begin = sound
Reaches-Sound service start _ clock dispatch sound (relayed s r) =
    (relay-Sound service clock dispatch).at s (Reaches-Sound service start s clock dispatch sound r)
Reaches-Sound service start _ clock dispatch sound (recovered minutes s r) =
    (recover_zombies-Sound service clock dispatch minutes).at s
      (Reaches-Sound service start s clock dispatch sound r)
Reaches-Sound service start _ clock dispatch sound (submitted message_id task_id t s r) =
    (save-AllSound service.outbox_repo _ (create_analyze_event-IsSound message_id task_id t)).at s
      (Reaches-Sound service start s clock dispatch sound r)
