-- ===== src/Net/ComServer.antt =====
-- The connections of the clients: system/ComServer.cpp, the part of system/ComConnection.cpp that
-- opens and closes one, and the count of system/Globals.cpp, against the system. The sockets are
-- left out; the id of a connection stands for it.
pub mod Laws
use ts_m2cellcpp.Prelude.{
  ℕ, ◌+◌, ◌-◌, Bool, true, false, not, ◌&&◌, ◌||◌, ◌==◌, ltb, any, List, [], ◌∷◌, length, Option,
  none, some, if◌then◌else◌,
}
use ts_m2cellcpp.State.StateMap.{offlinestate, standbystate}
use ts_m2cellcpp.System.{World, Event, state_request, connections, handle}

pub data ServerState : Type 0 where
  created running stopped : ServerState

abbrev pub is_stopped : ServerState → Bool
is_stopped stopped = true
is_stopped _ = false

-- A ComConnection whose shutdown has not been called.
pub record ComConnection : Type 0 where
  pub conn_id : ℕ
  pub connection_active : Bool

-- `live` are these connections, `connections_map` the keys of `_connections`, `accepting` the
-- connection of async_accept, and `tcp_ip_connected_count` the member of Globals.
pub record ComServer : Type 0 where
  pub state : ServerState
  pub shut_down : Bool
  pub connections_map : List ℕ
  pub conn_id_seq : ℕ
  pub live : List ComConnection
  pub accepting : Option ℕ
  pub tcp_ip_connected_count : ℕ
  pub world : World

abbrev pub contains : ℕ → List ℕ → Bool
contains id ids = any (λ i. i == id) ids

abbrev pub erase : ℕ → List ℕ → List ℕ
erase id [] = []
erase id (i ∷ is) = if i == id then is else i ∷ erase id is

unfoldable pub com_server : World → ComServer
com_server w = record {
  state = created;
  shut_down = false;
  connections_map = [];
  conn_id_seq = 0;
  live = [];
  accepting = none;
  tcp_ip_connected_count = 0;
  world = w;
}

unfoldable pub happen : ℕ → Event → ComServer → ComServer
happen now e s = record s { world = handle now e s.world }

-- setTcpIpConnected; the count is one for each active connection, so it is not lowered at 0.
unfoldable pub set_tcp_ip_connected : ℕ → Bool → ComServer → ComServer
set_tcp_ip_connected now connecting s =
    let original_count = s.tcp_ip_connected_count in
    let count = if connecting then original_count + 1 else original_count - 1 in
    let counted = record s { tcp_ip_connected_count = count } in
    if count == 0
    then happen now (state_request offlinestate) counted
    else if original_count == 0 && ltb 0 count
    then happen now (state_request standbystate) counted
    else counted

-- reportComConnectionCount with the size of the map.
unfoldable pub report_count : ℕ → ComServer → ComServer
report_count now s = happen now (connections (length s.connections_map)) s

unfoldable pub begin_accept : ComServer → ComServer
begin_accept s = if is_stopped s.state || s.shut_down then s else record s {
  conn_id_seq = s.conn_id_seq + 1;
  live = record { conn_id = s.conn_id_seq; connection_active = false } ∷ s.live;
  accepting = some s.conn_id_seq;
}

abbrev pub activate : ℕ → List ComConnection → List ComConnection
activate id [] = []
activate id (c ∷ cs) =
    if c.conn_id == id then record c { connection_active = true } ∷ cs else c ∷ activate id cs

-- beginProtocol, without the messages that it sends.
unfoldable pub begin_protocol : ℕ → ℕ → ComServer → ComServer
begin_protocol now id s = set_tcp_ip_connected now true (record s { live = activate id s.live })

-- `emplace` leaves a map that has the key.
unfoldable pub emplace : ℕ → ComServer → ComServer
emplace id s = record s {
  connections_map =
      if contains id s.connections_map then s.connections_map else id ∷ s.connections_map;
}

-- _handleAccept; `failed` says that the error code is not 0.
unfoldable pub handle_accept : ℕ → ℕ → Bool → ComServer → ComServer
handle_accept now id failed s =
    let reported = report_count now (emplace id s) in
    if is_stopped s.state || s.shut_down
    then s
    else begin_accept (if failed then reported else begin_protocol now id reported)

-- eraseConnection.
unfoldable pub erase_connection : ℕ → ℕ → ComServer → ComServer
erase_connection now id s =
    if contains id s.connections_map
    then report_count now (record s { connections_map = erase id s.connections_map })
    else s

find_live : ℕ → List ComConnection → Option ComConnection
find_live id [] = none
find_live id (c ∷ cs) = if c.conn_id == id then some c else find_live id cs

abbrev pub drop_live : ℕ → List ComConnection → List ComConnection
drop_live id [] = []
drop_live id (c ∷ cs) = if c.conn_id == id then cs else c ∷ drop_live id cs

close_found : ℕ → Option ComConnection → ComServer → ComServer
close_found now none s = s
close_found now (some c) s =
    let closed = record s { live = drop_live c.conn_id s.live } in
    erase_connection now c.conn_id
      (if c.connection_active then set_tcp_ip_connected now false closed else closed)

-- ComConnection::shutdown, which its destructor calls too.
unfoldable pub close : ℕ → ℕ → ComServer → ComServer
unfolding find_live close_found
close now id s = close_found now (find_live id s.live) s

close_all : ℕ → List ℕ → ComServer → ComServer
close_all now [] s = s
close_all now (id ∷ ids) s = close_all now ids (close now id s)

-- ComServer::shutdown, with the connections of the map as it is.
unfoldable pub shutdown_server : ℕ → ComServer → ComServer
unfolding close_all
shutdown_server now s =
    let closed = close_all now s.connections_map (record s { shut_down = true }) in
    if s.shut_down then s else closed

-- The start of `run`, and its end.
unfoldable pub run_begin : ComServer → ComServer
run_begin s = record (begin_accept s) { state = running }

unfoldable pub run_end : ComServer → ComServer
run_end s = record s { state = stopped }

-- What happens to the server: the end of an accept with its error or without, the end of a
-- connection, and the other events of the system.
pub data Step : Type 0 where
  begins ends shuts_down : Step
  accepts : Bool → Step
  closes : ℕ → Step
  other : Event → Step

accept_found : ℕ → Bool → Option ℕ → ComServer → ComServer
accept_found now failed none s = s
accept_found now failed (some id) s = handle_accept now id failed (record s { accepting = none })

unfoldable pub step : ℕ → Step → ComServer → ComServer
unfolding accept_found
step now begins s = run_begin s
step now ends s = run_end s
step now shuts_down s = shutdown_server now s
step now (accepts failed) s = accept_found now failed s.accepting s
step now (closes id) s = close now id s
step now (other e) s = happen now e s

unfoldable pub steps : List (ℕ × Step) → ComServer → ComServer
steps [] s = s
steps ((now, x) ∷ rest) s = steps rest (step now x s)
