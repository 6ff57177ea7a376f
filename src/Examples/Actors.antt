-- ===== src/Examples/Actors.antt =====
-- Three actors on a bus, of which the first exits.
use h3llo.Base.{List, [], ◌∷◌, true, false, ◌≡◌, refl}
use h3llo.Orchestrator.{critical, restartable, failed, completed}
use h3llo.Actor.{ActorBus, BusEvent, linked, finished, link, monitor, bus_run}
use h3llo.Actor.Linked.{bus_run-link}

abbrev empty : ActorBus
empty = record { links = λ a. []; closed = λ a. false; stopped = λ a. false; exits = [] }

abbrev happened : List BusEvent
happened =
    linked 2 3
    ∷ finished (record { id = 1; name = "udp-rx"; policy = critical }) failed
    ∷ finished (record { id = 2; name = "udp-tx"; policy = restartable }) completed
    ∷ []

all_stopped : (bus_run happened (link 1 2 empty)).stopped 3 ≡ true
unfolding bus_run link monitor
all_stopped = refl

bus_run-link_example :
    ((bus_run happened (link 1 2 empty)).closed 1 ≡ true
      → (bus_run happened (link 1 2 empty)).stopped 2 ≡ true)
    × ((bus_run happened (link 1 2 empty)).closed 2 ≡ true
        → (bus_run happened (link 1 2 empty)).stopped 1 ≡ true)
bus_run-link_example = bus_run-link 1 2 happened empty
