-- ===== src/Client/Actions/Executed.antt =====
-- qt_client and server: what the server does when a window sends its line.
use cpp_social_network_clien.Common.{
  ℕ, ℤ, ◌≡◌, ap, ◌∙◌, true, some, Text, arith, all, length, ◌≤◌, ◌<◌, subst,
}
use cpp_social_network_clien.Stream.Words.{take_while-all}
use cpp_social_network_clien.Database.{Engine}
use cpp_social_network_clien.Command.{Command}
use cpp_social_network_clien.App.{App, Outcome}
use cpp_social_network_clien.CommandFactory.{create}
use cpp_social_network_clien.Commands.{execute}
use cpp_social_network_clien.Server.{bytes, trim_end, buffer_input}
use cpp_social_network_clien.Server.Lines.{is_nonzero, respond_of_input}
use cpp_social_network_clien.Client.Connection.{NetworkClient, full_command, is_connected}
use cpp_social_network_clien.Client.Exchange.{
  request, outcome, outcome_line, exchange, exchange_answer, buffer_size, line_size, whole, fresh,
  one_read, serve_reads, serve_reads-one_read,
}
use cpp_social_network_clien.Client.Actions.{Action, sent_line}
use cpp_social_network_clien.Client.Actions.Meaning.{Means, sent_command, sent_command-Means}

created_of_sent :
    (trimmed : Text → Text) (indeterminate : ℤ) (a : Action) (line : Text) (c : Command)
    → sent_line trimmed a ≡ some line
    → sent_command trimmed indeterminate a ≡ some c
    → create indeterminate line ≡ some c
unfolding sent_command
created_of_sent trimmed indeterminate a line c h k = ground arith

pub buffer_input-clean :
    (line : Text)
    → all is_nonzero line ≡ true
    → trim_end line ≡ line
    → buffer_input (bytes line) ≡ line
unfolding buffer_input
buffer_input-clean line clean whole = ap trim_end (take_while-all is_nonzero line clean) ∙ whole

-- An action whose names, passwords and addresses are words, whose messages and posts are one line
-- and whose numbers are those that the windows offer sends a line on which the server executes the
-- command that the action stands for, and answers with its response, if the line has at most 1023
-- bytes, is read at once, has no zero byte and does not end with a newline or a carriage return.
pub respond-Means :
    (hasher : Text → ℕ) (e : Engine) (indeterminate : ℤ) (trimmed : Text → Text) {a : Action}
    {c : Command} (line : Text) (sd : ℕ) (s : App)
    → Means trimmed a c
    → sent_line trimmed a ≡ some line
    → all is_nonzero line ≡ true
    → trim_end line ≡ line
    → length (full_command line) ≤ line_size
    → serve_reads hasher (one_read e indeterminate) sd (full_command line) s
      ≡ execute hasher e c sd s
respond-Means hasher e indeterminate trimmed {a} {c} line sd s means sent clean ended fits =
    serve_reads-one_read hasher e indeterminate (full_command line) sd s fits
    ∙ outcome_line hasher e indeterminate sd line s clean
    ∙ respond_of_input hasher (request e indeterminate line) line c sd s
        (buffer_input-clean line clean ended)
        (created_of_sent trimmed indeterminate a line c sent
          (sent_command-Means trimmed indeterminate means))

-- A response that recv can deliver whole.
pub record IsDeliverable (response : Text) : Type 0 where
  pub given : 0 < length response
  pub short : length response ≤ buffer_size
  pub nonzero : all is_nonzero response ≡ true

-- A line that reaches the server as it is.
pub record IsSendable (line : Text) : Type 0 where
  pub nonzero : all is_nonzero line ≡ true
  pub ended : trim_end line ≡ line
  pub fits : length (full_command line) ≤ line_size

-- What sendCommand does where the server executes a command whose response can be delivered whole.
pub exchange-executed :
    (hasher : Text → ℕ) (e : Engine) (indeterminate : ℤ) (line : Text) (c : Command) (sd : ℕ)
    (client : NetworkClient) (s : App)
    → create indeterminate line ≡ some c
    → IsSendable line
    → is_connected client ≡ true
    → IsDeliverable (execute hasher e c sd s).1
    → exchange hasher
        (whole e indeterminate line (length (execute hasher e c sd s).1))
        sd
        line
        (fresh client s)
      ≡ (fresh client (execute hasher e c sd s).0, (execute hasher e c sd s).1)
exchange-executed hasher e indeterminate line c sd client s made sends up delivers =
    subst
      (λ (o : Outcome).
        0 < length o.1
        → length o.1 ≤ buffer_size
        → all is_nonzero o.1 ≡ true
        → exchange hasher (whole e indeterminate line (length o.1)) sd line (fresh client s)
          ≡ (fresh client o.0, o.1))
      (respond_of_input hasher (request e indeterminate line) line c sd s
        (buffer_input-clean line sends.nonzero sends.ended) made)
      (exchange_answer hasher e indeterminate sd line client s up sends.nonzero sends.fits)
      delivers.given delivers.short delivers.nonzero

pub outcome-executed :
    (hasher : Text → ℕ) (e : Engine) (indeterminate : ℤ) (line : Text) (c : Command) (sd : ℕ)
    (s : App)
    → create indeterminate line ≡ some c
    → IsSendable line
    → outcome hasher e indeterminate sd line s ≡ execute hasher e c sd s
outcome-executed hasher e indeterminate line c sd s made sends =
    outcome_line hasher e indeterminate sd line s sends.nonzero
    ∙ respond_of_input hasher (request e indeterminate line) line c sd s
        (buffer_input-clean line sends.nonzero sends.ended) made
