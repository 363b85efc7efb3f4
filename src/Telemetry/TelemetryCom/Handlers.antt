-- ===== src/Telemetry/TelemetryCom/Handlers.antt =====
-- The connections that the server keeps: each has a thread that sends and one that reads, and the
-- loop that accepts a client removes those whose threads have ended.
use ts_m2cellcpp.Prelude.{
  ℕ, Bool, true, false, not, ◌&&◌, ◌||◌, List, [], ◌∷◌, Option, none, some, if◌then◌else◌,
}

-- The members of ServerConnectionHandler. A thread is joinable until it is joined.
pub record ServerConnectionHandler : Type 0 where
  pub serv_conn_h_sock : ℕ
  pub conn_loop : Bool
  pub ready_to_join_handler : Bool
  pub joined_handler : Bool
  pub ready_to_join_reader : Bool
  pub joined_reader : Bool

-- The threads have just been started.
unfoldable pub server_connection_handler : ℕ → ServerConnectionHandler
server_connection_handler sock = record {
  serv_conn_h_sock = sock;
  conn_loop = true;
  ready_to_join_handler = false;
  joined_handler = false;
  ready_to_join_reader = false;
  joined_reader = false;
}

unfoldable pub serv_conn_h_shutdown : ServerConnectionHandler → ServerConnectionHandler
serv_conn_h_shutdown h = record h { conn_loop = false }

abbrev pub get_joined_all : ServerConnectionHandler → Bool
get_joined_all h = h.joined_handler && h.joined_reader

-- _joinHandler and _joinReader; a join waits for the end of the thread, where it says that it is ready.
unfoldable pub join_handler : ServerConnectionHandler → ServerConnectionHandler
join_handler h =
    if h.joined_handler then h else record h { ready_to_join_handler = true; joined_handler = true }

unfoldable pub join_reader : ServerConnectionHandler → ServerConnectionHandler
join_reader h =
    if h.joined_reader then h else record h { ready_to_join_reader = true; joined_reader = true }

unfoldable pub join_all : ServerConnectionHandler → ServerConnectionHandler
join_all h = join_reader (join_handler h)

unfoldable pub check_join_reader : ServerConnectionHandler → ServerConnectionHandler × Bool
check_join_reader h =
    if h.joined_reader
    then (h, true)
    else if not h.ready_to_join_reader
    then (h, false)
    else (join_reader h, true)

unfoldable pub check_join_all : ServerConnectionHandler → ServerConnectionHandler × Bool
check_join_all h =
    if h.joined_handler
    then check_join_reader h
    else if not h.ready_to_join_handler
    then (h, false)
    else check_join_reader (join_handler h)

-- The test that removes a connection.
unfoldable pub need_to_erase : ServerConnectionHandler → Bool
need_to_erase h = let (checked, joined) = check_join_all h in joined || get_joined_all checked

abbrev pub behind :
    ServerConnectionHandler
    → Option (List ServerConnectionHandler)
    → Option (List ServerConnectionHandler)
behind h none = none
behind h (some hs) = some (h ∷ hs)

-- The loop over the vector in `_server`. An erase invalidates the iterator that was advanced before
-- it, so what follows an erase has no defined behaviour: this is `none`.
unfoldable pub sweep : List ServerConnectionHandler → Option (List ServerConnectionHandler)
sweep [] = some []
sweep (h ∷ hs) =
    let rest = behind (check_join_all h).0 (sweep hs) in if need_to_erase h then none else rest
