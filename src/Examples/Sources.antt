-- ===== src/Examples/Sources.antt =====
-- The filter of bare UDP takes a batch from an unknown source, learns it, and takes another one.
use h3llo.Base.{ℕ, List, [], ◌∷◌, ◌≡◌, refl}
use h3llo.Net.{SocketAddr, v4, same_addr}
use h3llo.Bare.{
  BareRx, RxEvent, received, update_accepted_sources, input_closed, start_filter, filter_step,
  filter_run,
}
use h3llo.Channel.{send_and_record}
use h3llo.Bare.Filter.{IsFiltered, batches, filter_run-IsFiltered}
use h3llo.Examples.Peers.{open_channels}
use h3llo.Examples.Packets.{ipv4_packet}

abbrev remote : SocketAddr
remote = record { ip = v4 5; port = 6635 }

abbrev events : List RxEvent
events =
    received remote (ipv4_packet ∷ [])
    ∷ update_accepted_sources (v4 5 ∷ [])
    ∷ received remote (ipv4_packet ∷ ipv4_packet ∷ [])
    ∷ input_closed
    ∷ received remote (ipv4_packet ∷ [])
    ∷ []

abbrev filter : BareRx ℕ
filter = start_filter (v4 7 ∷ []) 3

offered :
    batches (filter_run open_channels events filter).sends ≡ (ipv4_packet ∷ ipv4_packet ∷ []) ∷ []
unfolding filter_run filter_step same_addr send_and_record
offered = refl

filter_run-IsFiltered_example : IsFiltered events filter (filter_run open_channels events filter)
filter_run-IsFiltered_example = filter_run-IsFiltered open_channels events filter
