-- ===== src/SessionManager.antt =====
-- server/SessionManager.cpp: who is logged in on which socket, and the conversation that each
-- socket has open.
pub mod Laws
use cpp_social_network_clien.Common.{
  ℕ, suc, Bool, true, false, Option, none, some, List, [], ◌∷◌, ℤ, negsuc, Text, ◌==◌, nat_eq,
  if◌then◌else◌,
}

-- std::unordered_map<int, V>, which the server never iterates over.
abbrev pub SocketMap {ℓ} : Type ℓ → Type ℓ
SocketMap V = List (ℕ × V)

module _ {ℓ} {V : Type ℓ} where
  unfoldable pub find : ℕ → SocketMap V → Option V
  find k [] = none
  find k ((j, v) ∷ m) = if j == k then some v else find k m

  unfoldable pub erase : ℕ → SocketMap V → SocketMap V
  erase k [] = []
  erase k ((j, v) ∷ m) = let rest = erase k m in if j == k then rest else (j, v) ∷ rest

  -- m[k] = v
  unfoldable pub put : ℕ → V → SocketMap V → SocketMap V
  unfolding erase
  put k v m = (k, v) ∷ erase k m

pub record SessionManager : Type 0 where
  pub sessions : SocketMap Text
  pub current_conversation : SocketMap ℤ

abbrev pub no_sessions : SessionManager
no_sessions = record { sessions = []; current_conversation = [] }

unfoldable pub login : ℕ → Text → SessionManager → SessionManager
login client_sd username m = record m { sessions = put client_sd username m.sessions }

unfoldable pub logout : ℕ → SessionManager → SessionManager
logout client_sd m = record {
  sessions = erase client_sd m.sessions;
  current_conversation = erase client_sd m.current_conversation;
}

abbrev pub is_some {ℓ} : {A : Type ℓ} → Option A → Bool
is_some none = false
is_some (some a) = true

abbrev pub value_or {ℓ} : {A : Type ℓ} → A → Option A → A
value_or d none = d
value_or d (some a) = a

unfoldable pub is_authenticated : ℕ → SessionManager → Bool
is_authenticated client_sd m = is_some (find client_sd m.sessions)

unfoldable pub get_username : ℕ → SessionManager → Text
get_username client_sd m = value_or [] (find client_sd m.sessions)

unfoldable pub open_conversation : ℕ → ℤ → SessionManager → SessionManager
open_conversation client_sd conversation_id m = record m {
  current_conversation = put client_sd conversation_id m.current_conversation;
}

unfoldable pub close_conversation : ℕ → SessionManager → SessionManager
close_conversation client_sd m = record m {
  current_conversation = erase client_sd m.current_conversation;
}

-- -1 if none is open.
unfoldable pub get_current_conversation : ℕ → SessionManager → ℤ
get_current_conversation client_sd m = value_or (negsuc 0) (find client_sd m.current_conversation)
