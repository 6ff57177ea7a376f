-- ===== src/Router/Loop.antt =====
-- The loop of the router actor (`spawn_router` of src/router.rs): a round takes one event.
use h3llo.Base.{ℕ, List, [], ◌∷◌, ◌++◌, Option, none, some, Bool, true, false, if◌then◌else◌}
use h3llo.Net.{IpAddr, SocketAddr}
use h3llo.Table.{RouteMatch}
use h3llo.Metrics.{Metrics, new_counters, router, rx, snapshot}
use h3llo.Channel.{Channels}
use h3llo.Router.{RouterState, handle_output_batch, handle_ingress_batch}

pub record RouterActor (Table Tx : Type 0) : Type 0 where
  pub routing : Table
  pub input_tx : Tx
  pub state : RouterState Tx
  pub emitted : List (Metrics SocketAddr)
  pub is_running : Bool

-- What the loop waits for; a tick says whether the owner could be reached.
pub data RouterEvent (Table : Type 0) : Type 0 where
  output : List (List ℕ) → RouterEvent Table
  ingress : List (List ℕ) → RouterEvent Table
  update_routing : Table → RouterEvent Table
  unexpected : RouterEvent Table
  tick : Bool → RouterEvent Table
  stop : RouterEvent Table
  closed : RouterEvent Table

module _ {Table Tx : Type 0} where
  abbrev pub start_router : Table → Tx → RouterActor Table Tx
  start_router routing input_tx = record {
    routing = routing;
    input_tx = input_tx;
    state = record { counters = new_counters router rx; sends = [] };
    emitted = [];
    is_running = true;
  }

  abbrev pub with_state :
      RouterActor Table Tx → Option (RouterState Tx) → Option (RouterActor Table Tx)
  with_state r none = none
  with_state r (some st) = some (record r { state = st })

module _ {Net Table Tx : Type 0} (channels : Channels Tx)
    (lookup : Table → IpAddr → Option (RouteMatch Net Tx)) where
  -- A round; `none` if the handler of a batch runs out of fuel.
  unfoldable pub router_step :
      RouterEvent Table → RouterActor Table Tx → Option (RouterActor Table Tx)
  router_step (output batch) r =
      some (record r { state = handle_output_batch channels (lookup r.routing) batch r.state })
  router_step (ingress batch) r =
      with_state r (handle_ingress_batch channels (lookup r.routing) r.input_tx batch r.state)
  router_step (update_routing routing) r = some (record r { routing = routing })
  router_step unexpected r = some r
  router_step (tick delivered) r = some (record r {
    emitted = r.emitted ++ snapshot r.state.counters none none ∷ [];
    is_running = delivered;
  })
  router_step stop r = some (record r { is_running = false })
  router_step closed r = some (record r { is_running = false })

  abbrev pub and_next :
      (RouterActor Table Tx → Option (RouterActor Table Tx))
      → Option (RouterActor Table Tx)
      → Option (RouterActor Table Tx)
  and_next next none = none
  and_next next (some r) = next r

  -- The loop over the events that come; what comes after its end is not seen.
  unfoldable pub router_run :
      List (RouterEvent Table) → RouterActor Table Tx → Option (RouterActor Table Tx)
  router_run [] r = some r
  router_run (event ∷ events) r =
      let next = and_next (router_run events) (router_step event r) in
      if r.is_running then next else some r
