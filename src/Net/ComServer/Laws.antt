-- ===== src/Net/ComServer/Laws.antt =====
-- The fault manager knows whether a client is connected.
use ts_m2cellcpp.Prelude.{
  ℕ, ◌+◌, ◌-◌, ◌≡◌, refl, ap, ◌∙◌, Bool, true, false, not, ◌&&◌, ◌||◌, ◌==◌, ltb, List, [], ◌∷◌,
  length, Option, none, some, if_both, if◌then◌else◌, arith,
}
use ts_m2cellcpp.State.StateMap.{offlinestate, standbystate}
use ts_m2cellcpp.Control.Defs.{SysInfo}
use ts_m2cellcpp.Control.PowerSubsystem.Invariant.{IsOff}
use ts_m2cellcpp.State.Model.Laws.{BothIn}
use ts_m2cellcpp.System.{Event, state_request, connections, world}
use ts_m2cellcpp.System.Connection.{flag, counts, flag-handle_other, built_flag}
use ts_m2cellcpp.System.Dark.{Dark, flag-connections, handle-Dark, world-Dark}
use ts_m2cellcpp.Net.ComServer.{
  ComConnection, ComServer, is_stopped, contains, com_server, happen, set_tcp_ip_connected,
  report_count, begin_accept, begin_protocol, emplace, handle_accept, erase_connection, find_live,
  drop_live, close_found, close, close_all, shutdown_server, run_begin, run_end, Step, begins, ends,
  shuts_down, accepts, closes, other, accept_found, step, steps,
}

-- The flag of the lost connection stands exactly while the map is empty.
pub record Known (s : ComServer) : Type 0 where
  pub dark : Dark s.world
  pub told : flag s.world ≡ ltb (length s.connections_map) 1

happen-Known :
    (now : ℕ) (e : Event) (s : ComServer) → counts e ≡ false → Known s → Known (happen now e s)
unfolding happen
happen-Known now e s c k = record {
  dark = handle-Dark now e s.world k.dark;
  told = flag-handle_other now e s.world c ∙ k.told;
}

-- A report makes it so, whatever the map was.
report_count-Known : (now : ℕ) (s : ComServer) → Dark s.world → Known (report_count now s)
unfolding report_count happen
report_count-Known now s d = record {
  dark = handle-Dark now (connections (length s.connections_map)) s.world d;
  told = flag-connections now (length s.connections_map) s.world;
}

set_tcp_ip_connected-Known :
    (now : ℕ) (b : Bool) (s : ComServer) → Known s → Known (set_tcp_ip_connected now b s)
unfolding set_tcp_ip_connected
set_tcp_ip_connected-Known now b s k =
    let original = s.tcp_ip_connected_count in
    let count = if b then original + 1 else original - 1 in
    let counted = record s { tcp_ip_connected_count = count } in
    let same : Known counted = record { dark = k.dark; told = k.told } in
    if_both Known (count == 0) (happen-Known now (state_request offlinestate) counted refl same) (
      if_both Known (original == 0 && ltb 0 count)
        (happen-Known now (state_request standbystate) counted refl same) same)

begin_accept-Known : (s : ComServer) → Known s → Known (begin_accept s)
unfolding begin_accept
begin_accept-Known s k =
    if_both Known (is_stopped s.state || s.shut_down) k (record { dark = k.dark; told = k.told })

handle_accept-Known :
    (now id : ℕ) (failed : Bool) (s : ComServer) → Known s → Known (handle_accept now id failed s)
unfolding handle_accept begin_protocol emplace
handle_accept-Known now id failed s k =
    let reported = report_count now (emplace id s) in
    let told = report_count-Known now (emplace id s) k.dark in
    if_both Known (is_stopped s.state || s.shut_down) k (
      begin_accept-Known (if failed then reported else begin_protocol now id reported) (
        if_both Known failed told
          (set_tcp_ip_connected-Known now true _ (record { dark = told.dark; told = told.told }))))

erase_connection-Known : (now id : ℕ) (s : ComServer) → Known s → Known (erase_connection now id s)
unfolding erase_connection
erase_connection-Known now id s k =
    if_both Known (contains id s.connections_map) (report_count-Known now _ k.dark) k

close_found-Known :
    (now : ℕ) (c : Option ComConnection) (s : ComServer) → Known s → Known (close_found now c s)
unfolding close_found
close_found-Known now none s k = k
close_found-Known now (some c) s k =
    let closed = record s { live = drop_live c.conn_id s.live } in
    let same : Known closed = record { dark = k.dark; told = k.told } in
    erase_connection-Known now c.conn_id _
      (if_both Known c.connection_active (set_tcp_ip_connected-Known now false closed same) same)

close-Known : (now id : ℕ) (s : ComServer) → Known s → Known (close now id s)
unfolding close
close-Known now id s k = close_found-Known now (find_live id s.live) s k

close_all-Known : (now : ℕ) (ids : List ℕ) (s : ComServer) → Known s → Known (close_all now ids s)
unfolding close_all
close_all-Known now [] s k = k
close_all-Known now (id ∷ ids) s k =
    close_all-Known now ids (close now id s) (close-Known now id s k)

shutdown_server-Known : (now : ℕ) (s : ComServer) → Known s → Known (shutdown_server now s)
unfolding shutdown_server
shutdown_server-Known now s k = if_both Known s.shut_down k (
    close_all-Known now s.connections_map (record s { shut_down = true })
      (record { dark = k.dark; told = k.told }))

accept_found-Known :
    (now : ℕ) (failed : Bool) (id : Option ℕ) (s : ComServer)
    → Known s
    → Known (accept_found now failed id s)
unfolding accept_found
accept_found-Known now failed none s k = k
accept_found-Known now failed (some id) s k =
    handle_accept-Known now id failed (record s { accepting = none })
      (record { dark = k.dark; told = k.told })

-- The reports come from the server alone.
abbrev pub reports_itself : List (ℕ × Step) → Bool
reports_itself [] = true
reports_itself ((now, other e) ∷ rest) = not (counts e) && reports_itself rest
reports_itself ((now, _) ∷ rest) = reports_itself rest

run_begin-Known : (s : ComServer) → Known s → Known (run_begin s)
unfolding run_begin
run_begin-Known s k =
    let accepted = begin_accept-Known s k in record { dark = accepted.dark; told = accepted.told }

pub steps-Known :
    (xs : List (ℕ × Step)) (s : ComServer) → reports_itself xs ≡ true → Known s → Known (steps xs s)
unfolding steps step run_end
steps-Known [] s q k = k
steps-Known ((now, begins) ∷ xs) s q k = steps-Known xs (run_begin s) q (run_begin-Known s k)
steps-Known ((now, ends) ∷ xs) s q k =
    steps-Known xs (run_end s) q (record { dark = k.dark; told = k.told })
steps-Known ((now, shuts_down) ∷ xs) s q k =
    steps-Known xs (shutdown_server now s) q (shutdown_server-Known now s k)
steps-Known ((now, accepts failed) ∷ xs) s q k =
    steps-Known xs _ q (accept_found-Known now failed s.accepting s k)
steps-Known ((now, closes id) ∷ xs) s q k =
    steps-Known xs (close now id s) q (close-Known now id s k)
steps-Known ((now, other e) ∷ xs) s q k =
    steps-Known xs (happen now e s) (ground (arith, q)) (happen-Known now e s (ground (arith, q)) k)

start-Known : (now : ℕ) (info : SysInfo) (port : ℕ) → Known (com_server (world now info port))
unfolding com_server
start-Known now info port = record {
  dark = world-Dark now info port;
  told = built_flag now info port;
}

-- From its start on, through every order of connections that open, fail and close, of commands and
-- of other events, provided that the server alone reports its count: while the server has no
-- connection, both power subsystems are off.
pub no_connection-IsOff :
    (xs : List (ℕ × Step)) (now : ℕ) (info : SysInfo) (port : ℕ)
    → reports_itself xs ≡ true
    → (steps xs (com_server (world now info port))).connections_map ≡ []
    → BothIn IsOff (steps xs (com_server (world now info port))).world.model
no_connection-IsOff xs now info port q e =
    let k = steps-Known xs (com_server (world now info port)) q (start-Known now info port) in
    k.dark.off (k.told ∙ ap (λ l. ltb (length l) 1) e)
