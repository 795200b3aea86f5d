-- ===== src/Client/Terminal/Rounds.antt =====
-- client/client.cpp: what the loop sends, while there is input and after its end.
use mathlib.Core.List.{append_assoc, append-nil}
use cpp_social_network_clien.Common.{
  ℕ, zero, suc, ◌<◌, Bool, true, false, not, ◌&&◌, ◌≡◌, refl, ap, sym, ◌∙◌, Option, some, List, [],
  ◌∷◌, ◌++◌, map, Text, text, newline, arith, all, is_empty, ◌==◌, nat_eq, text_eq, text_beq,
  length, replicate, ltb,
}
use cpp_social_network_clien.Stream.{take_while}
use cpp_social_network_clien.Stream.Words.{take_while-append, take_while-all}
use cpp_social_network_clien.Client.Terminal.{
  Terminal, fgets, message_size, cut_line, read_input, read_message, terminal_round,
  terminal_rounds,
}

abbrev is_plain_char : ℕ → Bool
is_plain_char c = not (c == 10) && not (c == 0)

-- A line that fits into the buffer, has no zero byte, and does not end the client.
abbrev pub is_message : Text → Bool
is_message line =
    all is_plain_char line && ltb (length line) message_size && not (line == text "exit")

fgets-line :
    (n : ℕ) (line rest : Text)
    → all is_plain_char line ≡ true
    → length line < n
    → fgets n (line ++ 10 ∷ rest) ≡ (line ++ newline, rest)
unfolding fgets all
fgets-line zero line rest h k = absurd (omega arith)
fgets-line (suc n) [] rest h k = refl
fgets-line (suc n) (c ∷ line) rest h k = ground (arith, fgets-line n line rest)

is_empty-line : (line rest : Text) → is_empty (line ++ 10 ∷ rest) ≡ false
is_empty-line [] rest = refl
is_empty-line (c ∷ line) rest = refl

read_message_lem : (t : Terminal) → read_message t ≡ read_input message_size t.message t.input
unfolding read_message
read_message_lem t = refl

-- A line of the input is read into `message` without its newline.
read_input-line :
    (n : ℕ) (message line rest : Text)
    → all is_plain_char line ≡ true
    → length line < n
    → read_input n message (line ++ 10 ∷ rest) ≡ (line, rest)
unfolding read_input cut_line
read_input-line n message line rest h k =
    rw
      (
        is_empty-line line rest,
        fgets-line n line rest h k,
        take_while-append is_plain_char line [] 10 h refl,
      )
      refl

-- At the end of the input, the message stays.
read_input-end :
    (n : ℕ) (message : Text)
    → all is_plain_char message ≡ true
    → read_input n message [] ≡ (message, [])
unfolding read_input cut_line
read_input-end n message h = rw (take_while-all is_plain_char message h) refl

read_message-line :
    (t : Terminal) (line rest : Text)
    → all is_plain_char line ≡ true
    → length line < message_size
    → t.input ≡ line ++ 10 ∷ rest
    → read_message t ≡ (line, rest)
read_message-line t line rest h k given =
    read_message_lem t
    ∙ ap (read_input message_size t.message) given
    ∙ read_input-line message_size t.message line rest h k

read_message-end :
    (t : Terminal)
    → all is_plain_char t.message ≡ true
    → t.input ≡ []
    → read_message t ≡ (t.message, [])
read_message-end t h ended =
    read_message_lem t
    ∙ ap (read_input message_size t.message) ended
    ∙ read_input-end message_size t.message h

-- The client after such a round.
abbrev after_round : Terminal → Text → Text → Text → Terminal
after_round t message input buffer = record {
  message = message;
  input = input;
  sent = t.sent ++ message ∷ [];
  printed = t.printed ++ (text "Server replied: " ++ take_while (λ c. not (c == 0)) buffer) ∷ [];
  running = true;
}

-- A round with a message that does not end the client, and an answer.
terminal_round-answered :
    (t : Terminal) (message input buffer : Text)
    → t.running ≡ true
    → read_message t ≡ (message, input)
    → (message == text "exit") ≡ false
    → terminal_round (some buffer) t ≡ after_round t message input buffer
unfolding terminal_round
terminal_round-answered t message input buffer on read other = rw (read, on, other) refl

-- A round with the message that ends the client.
stopped :
    (t : Terminal) (message input : Text) (reply : Option Text)
    → t.running ≡ true
    → read_message t ≡ (message, input)
    → (message == text "exit") ≡ true
    → terminal_round reply t ≡ record {
      message = message;
      input = input;
      sent = t.sent;
      printed = t.printed;
      running = false;
    }
unfolding terminal_round
stopped t message input reply on read h = rw (read, on, h) refl

-- Once the input has ended without `exit`, the client sends its last message again in every round
-- in which the server answers, and does not stop.
pub terminal_rounds-end :
    (buffers : List Text) (t : Terminal)
    → t.running ≡ true
    → t.input ≡ []
    → is_message t.message ≡ true
    → ((terminal_rounds (map some buffers) t).sent ≡ t.sent ++ replicate (length buffers) t.message)
      × ((terminal_rounds (map some buffers) t).running ≡ true)
unfolding terminal_rounds
terminal_rounds-end [] t on ended h = (sym (append-nil t.sent), on)
terminal_rounds-end (buffer ∷ buffers) t on ended h =
    let step : terminal_round (some buffer) t ≡ after_round t t.message [] buffer =
      terminal_round-answered t t.message [] buffer on (read_message-end t (ground arith) ended)
        (ground arith) in
    let rest = terminal_rounds-end buffers (after_round t t.message [] buffer) refl refl h in
    (
      ap (λ (u : Terminal). (terminal_rounds (map some buffers) u).sent) step
          ∙ rest.0
          ∙ append_assoc t.sent (t.message ∷ []) (replicate (length buffers) t.message),
      ap (λ (u : Terminal). (terminal_rounds (map some buffers) u).running) step ∙ rest.1,
    )

-- The lines that are typed, and `exit` at the end; and what read returns in each round.
abbrev pub typed : List (Text × Text) → Text
typed [] = text "exit" ++ newline
typed (x ∷ talk) = x.0 ++ 10 ∷ typed talk

abbrev pub answers : List (Text × Text) → Option Text → List (Option Text)
answers [] last = last ∷ []
answers (x ∷ talk) last = some x.1 ∷ answers talk last

abbrev pub replied : Text → Text
replied buffer = text "Server replied: " ++ take_while (λ c. not (c == 0)) buffer

exit_round :
    (t : Terminal) (last : Option Text)
    → t.running ≡ true
    → t.input ≡ text "exit" ++ newline
    → terminal_round last t ≡ record {
      message = text "exit";
      input = [];
      sent = t.sent;
      printed = t.printed;
      running = false;
    }
exit_round t last on given =
    stopped t (text "exit") [] last on
      (read_message-line t (text "exit") [] (unfold all in refl) (omega arith) given)
      (unfold text_beq in refl)

-- While the server answers, the client sends every line that is typed as a message of its own, in
-- order and without the newline, prints each answer, and stops at the line `exit`, which is not
-- sent. The lines have at most 1022 bytes, none of them zero.
pub terminal_rounds-lines :
    (talk : List (Text × Text)) (last : Option Text) (t : Terminal)
    → t.running ≡ true
    → t.input ≡ typed talk
    → all (λ x. is_message x.0) talk ≡ true
    → ((terminal_rounds (answers talk last) t).sent ≡ t.sent ++ map (λ x. x.0) talk)
      × ((terminal_rounds (answers talk last) t).printed ≡ t.printed ++ map (λ x. replied x.1) talk)
      × ((terminal_rounds (answers talk last) t).running ≡ false)
unfolding terminal_rounds
terminal_rounds-lines [] last t on given h =
    let step = exit_round t last on given in
    (
      ap (λ (u : Terminal). u.sent) step ∙ sym (append-nil t.sent),
      ap (λ (u : Terminal). u.printed) step ∙ sym (append-nil t.printed),
      ap (λ (u : Terminal). u.running) step,
    )
terminal_rounds-lines (x ∷ talk) last t on given h =
    let fits : is_message x.0 ≡ true = unfold all in ground arith in
    let step : terminal_round (some x.1) t ≡ after_round t x.0 (typed talk) x.1 =
      terminal_round-answered t x.0 (typed talk) x.1 on
        (read_message-line t x.0 (typed talk) (ground arith) (ground arith) given) (ground arith) in
    let rest =
      terminal_rounds-lines talk last (after_round t x.0 (typed talk) x.1) refl refl
        (unfold all in ground arith) in
    (
      ap (λ (u : Terminal). (terminal_rounds (answers talk last) u).sent) step
          ∙ rest.0
          ∙ append_assoc t.sent (x.0 ∷ []) (map (λ y. y.0) talk),
      ap (λ (u : Terminal). (terminal_rounds (answers talk last) u).printed) step
          ∙ rest.1
          ∙ append_assoc t.printed (replied x.1 ∷ []) (map (λ y. replied y.1) talk),
      ap (λ (u : Terminal). (terminal_rounds (answers talk last) u).running) step ∙ rest.2,
    )
