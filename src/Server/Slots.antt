-- ===== src/Server/Slots.antt =====
-- server/server.cpp: which sockets can be logged in.
use cpp_social_network_clien.Common.{
  ℕ, zero, suc, Bool, true, false, ◌&&◌, ◌≡◌, ◌≢◌, refl, sym, subst, ◌∙◌, negsuc, Option, none,
  some, List, [], ◌∷◌, Text, arith, any, ltb, nat_eq, nat_beq_iff, ◌==◌, Bool-cases, Option-cases,
  inl, inr, get_elem?, set, if◌then◌else◌, if_both,
}
use cpp_social_network_clien.SessionManager.{
  SessionManager, is_authenticated, logout, find, get_current_conversation,
}
use cpp_social_network_clien.SessionManager.Laws.{find-erase}
use cpp_social_network_clien.App.{App}
use cpp_social_network_clien.CommandFactory.{create}
use cpp_social_network_clien.Access.Isolation.{execute-SameSession}
use cpp_social_network_clien.Server.{
  Request, Server, respond, buffer_input, disconnect, is_disconnected, serve_client, serve_slot,
  serve_slots, take_slot, accept_client, round, max_clients,
}
use cpp_social_network_clien.Database.{Database}
use cpp_social_network_clien.Server.Reach.{Reach, started, next, Reach-IsConsistent}

-- The socket of a client that has a slot.
abbrev pub has_slot : List ℕ → ℕ → Bool
has_slot slots sd = ltb 0 sd && any (λ d. d == sd) slots

-- Every socket that is logged in has a slot.
pub record IsConnected (s : Server) : Type 0 where
  pub connected :
      (sd : ℕ) → is_authenticated sd s.app.sessions ≡ true → has_slot s.client_socket sd ≡ true

take_slot-has_slot :
    (new_socket sd : ℕ) (slots : List ℕ)
    → has_slot slots sd ≡ true
    → has_slot (take_slot new_socket slots) sd ≡ true
unfolding take_slot any
take_slot-has_slot new_socket sd [] h = h
take_slot-has_slot new_socket sd (d ∷ slots) h =
    ground (arith, take_slot-has_slot new_socket sd slots)

set-has_slot :
    (slots : List ℕ) (i sd other : ℕ)
    → get_elem? slots i ≡ some sd
    → sd ≢ other
    → has_slot slots other ≡ true
    → has_slot (set slots i 0) other ≡ true
unfolding any
set-has_slot [] i sd other e apart h = h
set-has_slot (d ∷ slots) zero sd other e apart h = ground arith
set-has_slot (d ∷ slots) (suc i) sd other e apart h =
    ground (arith, set-has_slot slots i sd other e apart)

get_elem?-has_slot :
    (slots : List ℕ) (i sd : ℕ)
    → get_elem? slots i ≡ some sd
    → ltb 0 sd ≡ true
    → has_slot slots sd ≡ true
unfolding any
get_elem?-has_slot [] i sd e h = absurd (ground arith)
get_elem?-has_slot (d ∷ slots) zero sd e h = ground arith
get_elem?-has_slot (d ∷ slots) (suc i) sd e h = ground (arith, get_elem?-has_slot slots i sd e h)

logout-is_authenticated :
    (sd other : ℕ) (m : SessionManager)
    → is_authenticated other (logout sd m)
      ≡ (if sd == other then false else is_authenticated other m)
unfolding logout is_authenticated
logout-is_authenticated sd other m = ground (arith, find-erase sd other m.sessions)

apart_of_test : (a b : ℕ) → (a == b) ≡ false → a ≢ b
apart_of_test a b n e = ground (arith, nat_beq_iff a b)

module _ (hasher : Text → ℕ) where
  respond-other :
      (r : Request) (sd other : ℕ) (s : App)
      → sd ≢ other
      → is_authenticated other (respond hasher r sd s).0.sessions
        ≡ is_authenticated other s.sessions
  unfolding respond is_authenticated
  respond-other r sd other s apart =
      elim (Option-cases (create r.indeterminate (buffer_input r.received))) [
        | inl e ↦ rw (e, respond) refl
        | inr (command, e) ↦
            rw (e, respond)
              (rw (execute-SameSession hasher r.engine command sd other s apart).session refl)
      ]

  disconnect-IsConnected :
      (i sd : ℕ) (s : Server)
      → get_elem? s.client_socket i ≡ some sd
      → IsConnected s
      → IsConnected (disconnect i sd s)
  unfolding disconnect
  disconnect-IsConnected i sd s slot v = record {
    connected = λ other h. elim (Bool-cases (sd == other)) [
      | inl y ↦ absurd (ground (arith, logout-is_authenticated sd other s.app.sessions))
      | inr n ↦
          set-has_slot s.client_socket i sd other slot (apart_of_test sd other n)
            (v.connected other (ground (arith, logout-is_authenticated sd other s.app.sessions)))
    ];
  }

  answer-IsConnected :
      (r : Request) (i sd : ℕ) (s : Server) (sent : List (ℕ × Text))
      → get_elem? s.client_socket i ≡ some sd
      → ltb 0 sd ≡ true
      → IsConnected s
      → IsConnected (record s { app = (respond hasher r sd s.app).0; sent = sent })
  answer-IsConnected r i sd s sent slot positive v = record {
    connected = λ other h. elim (Bool-cases (sd == other)) [
      | inl y ↦
          subst (λ d. has_slot s.client_socket d ≡ true) ((nat_beq_iff sd other).0 y)
            (get_elem?-has_slot s.client_socket i sd slot positive)
      | inr n ↦
          v.connected other (sym (respond-other r sd other s.app (apart_of_test sd other n)) ∙ h)
    ];
  }

  serve_client-IsConnected :
      (r : Request) (i sd : ℕ) (s : Server)
      → get_elem? s.client_socket i ≡ some sd
      → ltb 0 sd ≡ true
      → IsConnected s
      → IsConnected (serve_client hasher r i sd s)
  unfolding serve_client
  serve_client-IsConnected r i sd s slot positive v =
      if_both IsConnected (is_disconnected r.received) _ _
        (λ _. disconnect-IsConnected i sd s slot v)
        (λ _. answer-IsConnected r i sd s _ slot positive v)

  module _ (ready : ℕ → Option Request) where
    serve_slot-IsConnected :
        (i : ℕ) (slot : Option ℕ) (s : Server)
        → get_elem? s.client_socket i ≡ slot
        → IsConnected s
        → IsConnected (serve_slot hasher ready i slot s)
    unfolding serve_slot
    serve_slot-IsConnected i none s at v = v
    serve_slot-IsConnected i (some sd) s at v = elim (Option-cases (ready sd)) [
      | inl e ↦ rw (e, serve_slot) v
      | inr (r, e) ↦
          rw (e, serve_slot)
            (if_both IsConnected (ltb 0 sd) _ _
              (λ positive. serve_client-IsConnected r i sd s at positive v) (λ _. v))
    ]

    serve_slots-IsConnected :
        (rounds i : ℕ) (s : Server)
        → IsConnected s
        → IsConnected (serve_slots hasher ready rounds i s)
    unfolding serve_slots
    serve_slots-IsConnected zero i s v = v
    serve_slots-IsConnected (suc rounds) i s v =
        serve_slots-IsConnected rounds (suc i) _
          (serve_slot-IsConnected i (get_elem? s.client_socket i) s refl v)

accept_client-IsConnected :
    (accepted : Option ℕ) (s : Server) → IsConnected s → IsConnected (accept_client accepted s)
unfolding accept_client
accept_client-IsConnected none s v = v
accept_client-IsConnected (some new_socket) s v = record {
  connected = λ sd h. take_slot-has_slot new_socket sd s.client_socket (v.connected sd h);
}

-- In every state that the loop reaches by rounds without database errors, a socket that is logged
-- in is positive and the socket of a client that has a slot.
pub Reach-IsConnected :
    (hasher : Text → ℕ) {start : Database} {s : Server} → Reach hasher start s → IsConnected s
unfolding is_authenticated find round
Reach-IsConnected hasher started = record { connected = λ sd h. absurd (ground arith) }
Reach-IsConnected hasher (next {s = s} reached accepted ready reliable) =
    serve_slots-IsConnected hasher ready max_clients 0 (accept_client accepted s)
      (accept_client-IsConnected accepted s (Reach-IsConnected hasher reached))

is_authenticated_of_find :
    (sd : ℕ) (m : SessionManager) (u : Text)
    → find sd m.sessions ≡ some u
    → is_authenticated sd m ≡ true
unfolding is_authenticated
is_authenticated_of_find sd m u e = rw e refl

-- In every state that the loop reaches by rounds without database errors, a client that is
-- accepted with a socket that no slot holds starts without a session and without an open
-- conversation, even if the descriptor was in use before.
pub Reach-new_client :
    (hasher : Text → ℕ) {start : Database} (s : Server) (new_socket : ℕ)
    → Reach hasher start s
    → any (λ d. d == new_socket) s.client_socket ≡ false
    → (is_authenticated new_socket (accept_client (some new_socket) s).app.sessions ≡ false)
      × (get_current_conversation new_socket (accept_client (some new_socket) s).app.sessions
          ≡ negsuc 0)
unfolding accept_client
Reach-new_client hasher s new_socket reached unheld = (signed_out, closed)
  where
    signed_out : is_authenticated new_socket s.app.sessions ≡ false
    signed_out = ground (arith, (Reach-IsConnected hasher reached).connected new_socket)

    closed : get_current_conversation new_socket s.app.sessions ≡ negsuc 0
    closed = elim (Option-cases (find new_socket s.app.sessions.current_conversation)) [
      | inl e ↦ unfold get_current_conversation in rw e refl
      | inr (c, e) ↦
          let (u, signed_in, _) = (Reach-IsConsistent hasher reached).may_use new_socket c e in
          absurd (
            ground
              (arith, signed_out, is_authenticated_of_find new_socket s.app.sessions u signed_in))
    ]
