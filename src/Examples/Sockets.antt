-- ===== src/Examples/Sockets.antt =====
-- The UDP socket actors at concrete batches.
use h3llo.Base.{ℕ, List, [], ◌∷◌, none, true, All, map, ◌≡◌, ◌≢◌, refl, arith}
use h3llo.Net.{v4, SocketAddr}
use h3llo.Udp.{Transmit, SendSocket, complete, exhausted, gather, send_all, read_ready}
use h3llo.Udp.Sent.{IsFitting, send_all-ne-exhausted, send_all-IsFitting}
use h3llo.Udp.Received.{packets_of, coalesced, read_ready-send_all}

-- A socket that takes two segments at once and never fails.
abbrev socket : SendSocket
socket = record { max_gso_segments = λ sent. 2; try_send = λ sent transmit. none }

abbrev dest : SocketAddr
dest = record { ip = v4 7; port = 443 }

-- Three packets of two octets, and one of three.
abbrev packets : List (List ℕ)
packets = (1 ∷ 2 ∷ []) ∷ (3 ∷ 4 ∷ []) ∷ (5 ∷ 6 ∷ []) ∷ (7 ∷ 8 ∷ 9 ∷ []) ∷ []

abbrev transmits : List Transmit
transmits =
    record { destination = dest; contents = 1 ∷ 2 ∷ 3 ∷ 4 ∷ []; segment_size = 2 }
    ∷ record { destination = dest; contents = 5 ∷ 6 ∷ []; segment_size = 2 }
    ∷ record { destination = dest; contents = 7 ∷ 8 ∷ 9 ∷ []; segment_size = 3 }
    ∷ []

send_all_runs : send_all socket true dest [] packets ≡ (transmits, complete)
unfolding send_all gather
send_all_runs = refl

send_all-ne-exhausted_example : (send_all socket true dest [] packets).1 ≢ exhausted
send_all-ne-exhausted_example = send_all-ne-exhausted socket true dest packets (omega arith)

send_all-IsFitting_example : All (IsFitting true) (send_all socket true dest [] packets).0
send_all-IsFitting_example = send_all-IsFitting socket true dest packets (omega arith)

send_all_completes : (send_all socket true dest [] packets).1 ≡ complete
unfolding send_all gather
send_all_completes = refl

read_ready-send_all_example :
    packets_of
      (read_ready 1_350
        (λ before. true)
        (map (coalesced dest) (send_all socket true dest [] packets).0)
        []).0
    ≡ packets
read_ready-send_all_example =
    read_ready-send_all 1_350 dest (λ before. true) (λ before. refl) socket true dest packets
      (omega arith) (omega arith) send_all_completes
