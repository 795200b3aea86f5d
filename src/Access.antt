-- ===== src/Access.antt =====
-- Who may read and write a conversation: the sessions of server/SessionManager.cpp against the
-- table of participants of server/Database.cpp. `SendCommand`, `ShowCommand` and `AddCommand` rely
-- on it: `ShowCommand` and `AddCommand` do not ask whether the client is a participant.
pub mod Steps
pub mod Isolation
pub mod Reading
pub mod Chatting
pub mod Members
pub mod Posts
use cpp_social_network_clien.Common.{
  ℕ, ℤ, Bool, true, false, ◌≡◌, refl, Option, none, some, Text, arith, any, ◌==◌, nat_eq,
  nat_beq_iff, if◌then◌else◌, Bool-cases, Option-cases, inl, inr, subst, ◌≢◌, negsuc,
}
use cpp_social_network_clien.Database.{Database}
use cpp_social_network_clien.Database.Messages.{member}
use cpp_social_network_clien.Database.Growth.{Grows}
use cpp_social_network_clien.SessionManager.{
  find, SessionManager, login, logout, is_authenticated, get_username, open_conversation,
  get_current_conversation,
}
use cpp_social_network_clien.SessionManager.Laws.{find-put, find-erase}
use cpp_social_network_clien.App.{App}

-- A socket that has a conversation open is logged in, as a participant of that conversation.
abbrev pub MayUse : App → ℕ → ℤ → Type 0
MayUse s sd c =
    (u : Text) × (find sd s.sessions.sessions ≡ some u)
    × (any (member c u) s.db.participants ≡ true)

pub record IsConsistent (s : App) : Type 0 where
  pub may_use : (sd : ℕ) (c : ℤ) → find sd s.sessions.current_conversation ≡ some c → MayUse s sd c

pub find-is_authenticated :
    (sd : ℕ) (m : SessionManager)
    → is_authenticated sd m ≡ true
    → find sd m.sessions ≡ some (get_username sd m)
unfolding is_authenticated get_username
find-is_authenticated sd m h = ground arith

module _ (s : App) where
  pub IsConsistent-db :
      (db : Database) → IsConsistent s → Grows s.db db → IsConsistent (record s { db = db })
  IsConsistent-db db v g = record {
    may_use =
        λ sd c e. let (u, found, there) = v.may_use sd c e in (u, found, g.kept (member c u) there);
  }

  pub IsConsistent-login :
      (client_sd : ℕ) (username : Text)
      → is_authenticated client_sd s.sessions ≡ false
      → IsConsistent s
      → IsConsistent (record s { sessions = login client_sd username s.sessions })
  unfolding login is_authenticated
  IsConsistent-login client_sd username out v = record {
    may_use = λ sd c e.
        let (u, found, there) = v.may_use sd c e in
        (u, ground (arith, find-put client_sd sd username s.sessions.sessions), there);
  }

  pub IsConsistent-logout :
      (client_sd : ℕ)
      → IsConsistent s
      → IsConsistent (record s { sessions = logout client_sd s.sessions })
  unfolding logout
  IsConsistent-logout client_sd v = record {
    may_use = λ sd c e. elim (Bool-cases (client_sd == sd)) [
      | inl y ↦ absurd (ground (arith, find-erase client_sd sd s.sessions.current_conversation))
      | inr n ↦
          let (u, found, there) =
            v.may_use sd c
              (ground (arith, find-erase client_sd sd s.sessions.current_conversation)) in
          (u, ground (arith, find-erase client_sd sd s.sessions.sessions), there)
    ];
  }

  pub IsConsistent-open :
      (client_sd : ℕ) (conversation_id : ℤ)
      → is_authenticated client_sd s.sessions ≡ true
      → any (member conversation_id (get_username client_sd s.sessions)) s.db.participants ≡ true
      → IsConsistent s
      → IsConsistent
          (record s { sessions = open_conversation client_sd conversation_id s.sessions })
  unfolding open_conversation is_authenticated get_username
  IsConsistent-open client_sd conversation_id within there v = record {
    may_use = λ sd c e. elim (Bool-cases (client_sd == sd)) [
      | inl y ↦
          let opened : conversation_id ≡ c =
            ground (arith, find-put client_sd sd conversation_id s.sessions.current_conversation) in
          (
            get_username client_sd s.sessions,
            subst (λ k. find k s.sessions.sessions ≡ some (get_username client_sd s.sessions))
                ((nat_beq_iff client_sd sd).0 y)
                (find-is_authenticated client_sd s.sessions within),
            subst (λ k. any (member k (get_username client_sd s.sessions)) s.db.participants ≡ true)
                opened there,
          )
      | inr n ↦
          v.may_use sd c
            (ground (arith, find-put client_sd sd conversation_id s.sessions.current_conversation))
    ];
  }

  -- The conversation that `SendCommand` and the others read from the session.
  pub current_conversation-MayUse :
      (sd : ℕ)
      → IsConsistent s
      → get_current_conversation sd s.sessions ≢ negsuc 0
      → any
          (member (get_current_conversation sd s.sessions) (get_username sd s.sessions))
          s.db.participants
        ≡ true
  unfolding get_current_conversation get_username
  current_conversation-MayUse sd v h =
      elim (Option-cases (find sd s.sessions.current_conversation)) [
        | inl e ↦ absurd (h (ground arith))
        | inr (c, e) ↦ let (u, found, there) = v.may_use sd c e in rw (e, found) there
      ]
