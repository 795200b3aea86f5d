-- ===== src/Server.antt =====
-- server/server.cpp: the loop over select. What select, accept and read return is an argument of
-- each round; the sockets that select reports are those for which `ready` has a request.
pub mod Rounds
pub mod Reach
pub mod WellFormed
pub mod Slots
pub mod Lines
use cpp_social_network_clien.Common.{
  ℕ, zero, suc, Bool, true, false, not, ◌&&◌, ◌||◌, Option, none, some, List, [], ◌∷◌, ◌++◌, ℤ,
  Text, text, ◌==◌, nat_eq, ltb, if◌then◌else◌, is_empty, any, select, set, replicate, get_elem?,
}
use cpp_social_network_clien.Stream.{take_while}
use cpp_social_network_clien.Database.{Database, Engine}
use cpp_social_network_clien.SessionManager
use cpp_social_network_clien.SessionManager.{no_sessions}
use cpp_social_network_clien.App.{App, Outcome}
use cpp_social_network_clien.CommandFactory.{create}
use cpp_social_network_clien.Commands.{execute}

abbrev pub max_clients : ℕ
max_clients = 30

-- What read returns: 0, -1, or some bytes, at most BUFFER_SIZE - 1 of them.
pub data Received : Type 0 where
  disconnected : Received
  failed : Received
  bytes : Text → Received

-- A socket that is ready: what read returns, SQLite while the command runs, and what an
-- uninitialised `int` happens to hold.
pub record Request : Type 1 where
  pub received : Received
  pub engine : Engine
  pub indeterminate : ℤ

pub record Server : Type 0 where
  pub client_socket : List ℕ
  pub master_set : List ℕ
  pub app : App
  pub sent : List (ℕ × Text)

-- A server that starts on a database.
abbrev pub init_server : Database → Server
init_server db = record {
  client_socket = replicate max_clients 0;
  master_set = [];
  app = record { db = db; sessions = no_sessions };
  sent = [];
}

-- input.erase(input.find_last_not_of("\n\r") + 1)
unfoldable pub trim_end : Text → Text
trim_end [] = []
trim_end (c ∷ s) =
    let rest = trim_end s in if is_empty rest && (c == 10 || c == 13) then [] else c ∷ rest

-- string input(buffer), which ends at the first zero byte; the buffer is all zeros if read failed.
unfoldable pub buffer_input : Received → Text
unfolding take_while trim_end
buffer_input (bytes b) = trim_end (take_while (λ c. not (c == 0)) b)
buffer_input _ = []

-- From the line of a client to the response.
unfoldable pub respond : (Text → ℕ) → Request → ℕ → App → Outcome
unfolding buffer_input
respond hasher r sd s = elim (create r.indeterminate (buffer_input r.received)) [
  | none ↦ (s, text "ERROR Unknown command\n")
  | some command ↦ execute hasher r.engine command sd s
]

abbrev pub is_disconnected : Received → Bool
is_disconnected disconnected = true
is_disconnected _ = false

-- The end of a connection: logout, close, FD_CLR, and the slot is free again.
unfoldable pub disconnect : ℕ → ℕ → Server → Server
disconnect i sd s = record s {
  client_socket = set s.client_socket i 0;
  master_set = select (λ d. not (d == sd)) s.master_set;
  app = record s.app { sessions = SessionManager.logout sd s.app.sessions };
}

-- One connection that is ready to be read, in slot `i`.
unfoldable pub serve_client : (Text → ℕ) → Request → ℕ → ℕ → Server → Server
unfolding respond disconnect
serve_client hasher r i sd s =
    let (app, response) = respond hasher r sd s.app in
    if is_disconnected r.received
    then disconnect i sd s
    else record s { app = app; sent = s.sent ++ (sd, response) ∷ [] }

-- sd > 0 && FD_ISSET(sd, &read_set), for the socket in slot `i`, if there is such a slot.
unfoldable pub serve_slot : (Text → ℕ) → (ℕ → Option Request) → ℕ → Option ℕ → Server → Server
unfolding serve_client
serve_slot hasher ready i none s = s
serve_slot hasher ready i (some sd) s = elim (ready sd) [
  | none ↦ s
  | some r ↦ if ltb 0 sd then serve_client hasher r i sd s else s
]

-- for (int i = 0; i < MAX_CLIENTS; i++), with the rounds that are left and `i`.
unfoldable pub serve_slots : (Text → ℕ) → (ℕ → Option Request) → ℕ → ℕ → Server → Server
unfolding serve_slot
serve_slots hasher ready zero i s = s
serve_slots hasher ready (suc rounds) i s =
    serve_slots hasher ready rounds (suc i)
      (serve_slot hasher ready i (get_elem? s.client_socket i) s)

-- The first free slot takes the new socket; without one the socket stays in the set unserved.
unfoldable pub take_slot : ℕ → List ℕ → List ℕ
take_slot new_socket [] = []
take_slot new_socket (sd ∷ slots) =
    if sd == 0 then new_socket ∷ slots else sd ∷ take_slot new_socket slots

unfoldable pub accept_client : Option ℕ → Server → Server
unfolding take_slot
accept_client none s = s
accept_client (some new_socket) s = record s {
  client_socket = take_slot new_socket s.client_socket;
  master_set = new_socket ∷ s.master_set;
}

-- One round of the loop: the connection that was accepted, if any, and the requests.
unfoldable pub round : (Text → ℕ) → Option ℕ → (ℕ → Option Request) → Server → Server
round hasher accepted ready s = serve_slots hasher ready max_clients 0 (accept_client accepted s)
