-- ===== src/Client/Terminal.antt =====
-- client/client.cpp: the client on a terminal. What read returns in each round is an argument.
pub mod Rounds
use cpp_social_network_clien.Common.{
  ℕ, zero, suc, ◌+◌, ◌<◌, ◌≤◌, Bool, true, false, not, ◌&&◌, ◌≡◌, ◌≢◌, refl, ap, sym, ◌∙◌, Option,
  none, some, List, [], ◌∷◌, ◌++◌, map, Text, text, arith, all, is_empty, ◌==◌, nat_eq, text_eq,
  text_beq, text_beq_iff, if◌then◌else◌, length, replicate,
}
use cpp_social_network_clien.Stream.{take_while}
use cpp_social_network_clien.Stream.Words.{take_while-append, take_while-all}
use cpp_social_network_clien.Client.Lines.{unlines}

-- The text in `message`, what is left of the standard input, and what was sent and printed.
pub record Terminal : Type 0 where
  pub message : Text
  pub input : Text
  pub sent : List Text
  pub printed : List Text
  pub running : Bool

-- fgets with room for `n` bytes: a line with its newline, or as much of it as fits.
unfoldable pub fgets : ℕ → Text → Text × Text
fgets zero s = ([], s)
fgets (suc n) [] = ([], [])
fgets (suc n) (c ∷ s) =
    let (line, rest) = fgets n s in if c == 10 then (c ∷ [], s) else (c ∷ line, rest)

-- sizeof(message) - 1
abbrev pub message_size : ℕ
message_size = 1023

-- message[strcspn(message, "\n")] = 0, as the string that is left.
unfoldable pub cut_line : Text → Text
unfolding take_while
cut_line s = take_while (λ c. not (c == 10) && not (c == 0)) s

-- fgets with room for `n` bytes, and the end of the line cut off. At the end of the input it
-- returns NULL and leaves `message` alone; the result is not looked at.
unfoldable pub read_input : ℕ → Text → Text → Text × Text
unfolding fgets cut_line
read_input n message input =
    if is_empty input
    then (cut_line message, [])
    else (let (line, rest) = fgets n input in (cut_line line, rest))

unfoldable pub read_message : Terminal → Text × Text
unfolding read_input
read_message t = read_input message_size t.message t.input

-- while (1)
unfoldable pub terminal_round : Option Text → Terminal → Terminal
unfolding read_message
terminal_round reply t =
    let (message, input) = read_message t in
    let read : Terminal = record t { message = message; input = input } in
    if not t.running
    then t
    else if message == text "exit"
    then record read { running = false }
    else elim reply [
      | none ↦ record read {
        sent = t.sent ++ message ∷ [];
        printed = t.printed ++ text "Server disconnected." ∷ [];
        running = false;
      }
      | some buffer ↦ record read {
        sent = t.sent ++ message ∷ [];
        printed =
            t.printed ++ (text "Server replied: " ++ take_while (λ c. not (c == 0)) buffer) ∷ [];
      }
    ]

unfoldable pub terminal_rounds : List (Option Text) → Terminal → Terminal
unfolding terminal_round
terminal_rounds [] t = t
terminal_rounds (reply ∷ replies) t = terminal_rounds replies (terminal_round reply t)
