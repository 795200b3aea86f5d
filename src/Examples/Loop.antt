-- ===== src/Examples/Loop.antt =====
-- Runs of the loop over select.
use cpp_social_network_clien.Common.{
  all, nat_eq, false, ℕ, ◌≡◌, refl, ap, subst, true, Option, some, [], ◌∷◌, pos, negsuc, text, any,
  ◌==◌, text_eq,
}
use cpp_social_network_clien.Database.{IsReliable}
use cpp_social_network_clien.SessionManager.{is_authenticated, get_current_conversation, value_or}
use cpp_social_network_clien.Access.{IsConsistent}
use cpp_social_network_clien.Server.{Request, Received, init_server, round, Server, accept_client}
use cpp_social_network_clien.Server.Reach.{Reach, Reach-IsConsistent}
use cpp_social_network_clien.Server.Rounds.{AllReliable}
use cpp_social_network_clien.Server.Slots.{IsConnected, Reach-IsConnected, Reach-new_client}
use cpp_social_network_clien.Server.Lines.{is_nonzero, is_line_end}
use cpp_social_network_clien.Stream.Words.{IsWord}
use cpp_social_network_clien.Examples.Setting.{ideal, ideal-IsReliable, hasher, town}

abbrev log_in : Request
log_in = record {
  received = Received.bytes (text "login ada lace\n");
  engine = ideal;
  indeterminate = pos 7;
}

-- Every socket has something to say.
abbrev pub busy : ℕ → Option Request
busy _ = some log_in

pub busy-AllReliable : AllReliable busy
busy-AllReliable sd r e = subst (λ r. IsReliable r.engine) (ap (value_or log_in) e) ideal-IsReliable

Reach-IsConsistent_example : IsConsistent (round hasher (some 4) busy (init_server town)).app
Reach-IsConsistent_example =
    Reach-IsConsistent hasher (Reach.next Reach.started (some 4) busy busy-AllReliable)

abbrev after_log_in : Server
after_log_in = round hasher (some 4) busy (init_server town)

after_log_in-Reach : Reach hasher town after_log_in
after_log_in-Reach = Reach.next Reach.started (some 4) busy busy-AllReliable

Reach-IsConnected_example : IsConnected after_log_in
Reach-IsConnected_example = Reach-IsConnected hasher after_log_in-Reach

socket_9_unheld : any (λ d. d == 9) (init_server town).client_socket ≡ false
unfolding any
socket_9_unheld = refl

Reach-new_client_example :
    (is_authenticated 9 (accept_client (some 9) (init_server town)).app.sessions ≡ false)
    × (get_current_conversation 9 (accept_client (some 9) (init_server town)).app.sessions
        ≡ negsuc 0)
Reach-new_client_example =
    Reach-new_client hasher (init_server town) 9 Reach.started socket_9_unheld

show_clean : all is_nonzero (text "show") ≡ true
unfolding all
show_clean = refl

crlf_ends : all is_line_end (13 ∷ 10 ∷ []) ≡ true
unfolding all
crlf_ends = refl

ada-IsWord : IsWord (text "ada")
unfolding all
ada-IsWord = record { nonempty = refl; unspaced = refl }

newline_ends : all is_line_end (10 ∷ []) ≡ true
unfolding all
newline_ends = refl

ada_clean : all is_nonzero (text "ada") ≡ true
unfolding all
ada_clean = refl
