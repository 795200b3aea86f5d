-- ===== src/Server/Rounds.antt =====
-- server/server.cpp: what every answer and every logout keeps, one round of the loop keeps.
use cpp_social_network_clien.Common.{
  ℕ, zero, suc, ◌≡◌, Option, none, some, Text, ltb, if_both, Option-cases, inl, inr, get_elem?,
}
use cpp_social_network_clien.Database.{IsReliable}
use cpp_social_network_clien.SessionManager
use cpp_social_network_clien.SessionManager.{find, no_sessions}
use cpp_social_network_clien.App.{App}
use cpp_social_network_clien.Server.{
  Request, Server, respond, disconnect, is_disconnected, serve_client, serve_slot, serve_slots,
  accept_client, round, max_clients,
}

-- The database meets no error during the requests of a round.
abbrev pub AllReliable : (ℕ → Option Request) → Type 1
AllReliable ready = (sd : ℕ) (r : Request) → ready sd ≡ some r → IsReliable r.engine

module _ (hasher : Text → ℕ) (Q : App → Type 0)
    (answers : (r : Request) (sd : ℕ) (s : App)
      → IsReliable r.engine
      → Q s
      → Q (respond hasher r sd s).0)
    (logs_out : (sd : ℕ) (s : App)
      → Q s
      → Q (record s { sessions = SessionManager.logout sd s.sessions })) where
  serve_client-keeps :
      (r : Request) (i sd : ℕ) (s : Server)
      → IsReliable r.engine
      → Q s.app
      → Q (serve_client hasher r i sd s).app
  unfolding serve_client disconnect
  serve_client-keeps r i sd s reliable v =
      if_both (λ (t : Server). Q t.app) (is_disconnected r.received) _ _ (λ _. logs_out sd s.app v)
        (λ _. answers r sd s.app reliable v)

  module _ (ready : ℕ → Option Request) (reliable : AllReliable ready) where
    serve_slot-keeps :
        (i : ℕ) (slot : Option ℕ) (s : Server) → Q s.app → Q (serve_slot hasher ready i slot s).app
    unfolding serve_slot
    serve_slot-keeps i none s v = v
    serve_slot-keeps i (some sd) s v = elim (Option-cases (ready sd)) [
      | inl e ↦ rw (e, serve_slot) v
      | inr (r, e) ↦
          rw (e, serve_slot)
            (if_both (λ (t : Server). Q t.app) (ltb 0 sd) _ _
              (λ _. serve_client-keeps r i sd s (reliable sd r e) v) (λ _. v))
    ]

    serve_slots-keeps :
        (rounds i : ℕ) (s : Server) → Q s.app → Q (serve_slots hasher ready rounds i s).app
    unfolding serve_slots
    serve_slots-keeps zero i s v = v
    serve_slots-keeps (suc rounds) i s v =
        serve_slots-keeps rounds (suc i) _ (serve_slot-keeps i (get_elem? s.client_socket i) s v)

  accept_client-keeps :
      (accepted : Option ℕ) (s : Server) → Q s.app → Q (accept_client accepted s).app
  unfolding accept_client
  accept_client-keeps none s v = v
  accept_client-keeps (some new_socket) s v = v

  pub round-keeps :
      (accepted : Option ℕ) (ready : ℕ → Option Request) (s : Server)
      → AllReliable ready
      → Q s.app
      → Q (round hasher accepted ready s).app
  unfolding round
  round-keeps accepted ready s reliable v =
      serve_slots-keeps ready reliable max_clients 0 (accept_client accepted s)
        (accept_client-keeps accepted s v)
