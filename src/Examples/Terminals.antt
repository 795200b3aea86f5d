-- ===== src/Examples/Terminals.antt =====
-- The client on a terminal.
use cpp_social_network_clien.Common.{
  ◌≡◌, refl, true, false, List, [], ◌∷◌, ◌++◌, map, none, some, Text, text, text_beq, all,
  replicate, length,
}
use cpp_social_network_clien.Client.Terminal.{Terminal, terminal_rounds}
use cpp_social_network_clien.Client.Terminal.Rounds.{
  is_message, typed, answers, replied, terminal_rounds-end, terminal_rounds-lines,
}

-- Two lines, and the answers to them.
abbrev talk : List (Text × Text)
talk =
    (text "list_posts", text "OK No posts\n") ∷ (text "logout", text "ERROR Not logged in\n") ∷ []

abbrev terminal : Terminal
terminal = record { message = []; input = typed talk; sent = []; printed = []; running = true }

talk_fits : all (λ x. is_message x.0) talk ≡ true
unfolding all text_beq
talk_fits = refl

terminal_rounds-lines_example :
    ((terminal_rounds (answers talk none) terminal).sent ≡ [] ++ map (λ x. x.0) talk)
    × ((terminal_rounds (answers talk none) terminal).printed ≡ [] ++ map (λ x. replied x.1) talk)
    × ((terminal_rounds (answers talk none) terminal).running ≡ false)
terminal_rounds-lines_example = terminal_rounds-lines talk none terminal refl refl talk_fits

-- The input has ended behind a line.
abbrev ended : Terminal
ended = record {
  message = text "show";
  input = [];
  sent = text "show" ∷ [];
  printed = [];
  running = true;
}

show_fits : is_message (text "show") ≡ true
unfolding all text_beq
show_fits = refl

abbrev buffers : List Text
buffers = text "No messages" ∷ text "No messages" ∷ []

terminal_rounds-end_example :
    ((terminal_rounds (map some buffers) ended).sent
      ≡ ended.sent ++ replicate (length buffers) ended.message)
    × ((terminal_rounds (map some buffers) ended).running ≡ true)
terminal_rounds-end_example = terminal_rounds-end buffers ended refl refl show_fits
