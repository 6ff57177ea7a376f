-- ===== src/Actor.antt =====
-- The links between actors and the monitor of an actor (`ActorRef::link` and `ActorBus::drive` of
-- src/actor.rs). An actor is a number; a channel that is closed takes no link, and the events `Stop`
-- that are sent to an actor are kept as whether there was one.
pub mod Linked
use h3llo.Base.{ℕ, List, [], ◌∷◌, ◌++◌, Bool, true, false, ◌==◌, if◌then◌else◌, String}
use h3llo.Orchestrator.{SupervisionPolicy, ExitResult}

pub record ActorExit : Type 0 where
  pub name : String
  pub policy : SupervisionPolicy
  pub result : ExitResult

pub record ActorRegistration : Type 0 where
  pub id : ℕ
  pub name : String
  pub policy : SupervisionPolicy

-- The queue of links of each actor, whether its receiver is closed, whether the actor was sent
-- `Stop`, and the exits that the owner was told of.
pub record ActorBus : Type 0 where
  pub links : ℕ → List ℕ
  pub closed : ℕ → Bool
  pub stopped : ℕ → Bool
  pub exits : List ActorExit

abbrev pub update : {A : Type 0} → ℕ → A → (ℕ → A) → ℕ → A
update a value f x = if x == a then value else f x

abbrev pub send_stop : ℕ → ActorBus → ActorBus
send_stop a s = record s { stopped = update a true s.stopped }

-- Half of a link: `a` stops `b` when it exits, or at once if it has.
abbrev pub send_link : ℕ → ℕ → ActorBus → ActorBus
send_link a b s =
    if s.closed a
    then send_stop b s
    else record s { links = update a (s.links a ++ (b ∷ [])) s.links }

unfoldable pub link : ℕ → ℕ → ActorBus → ActorBus
link a b s = send_link b a (send_link a b s)

-- The loop over the links that are queued.
abbrev pub drain : List ℕ → (ℕ → Bool) → ℕ → Bool
drain [] stopped = stopped
drain (linked ∷ rest) stopped = drain rest (update linked true stopped)

-- The monitor, once the task has its result.
unfoldable pub monitor : ActorRegistration → ExitResult → ActorBus → ActorBus
monitor r result s = record {
  links = update r.id [] s.links;
  closed = update r.id true s.closed;
  stopped = drain (s.links r.id) s.stopped;
  exits = s.exits ++ (record { name = r.name; policy = r.policy; result = result } ∷ []);
}

-- What happens on the bus.
pub data BusEvent : Type 0 where
  linked : (a b : ℕ) → BusEvent
  finished : ActorRegistration → ExitResult → BusEvent

abbrev pub bus_step : BusEvent → ActorBus → ActorBus
bus_step (linked a b) s = link a b s
bus_step (finished r result) s = monitor r result s

unfoldable pub bus_run : List BusEvent → ActorBus → ActorBus
bus_run [] s = s
bus_run (e ∷ rest) s = bus_run rest (bus_step e s)
