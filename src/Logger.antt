-- ===== src/Logger.antt =====
-- server/Logger.cpp, and the lines that server/server.cpp writes to the log for a request. The
-- clock is an argument, and the log file the list of its lines. What the commands write is not
-- modelled.
use cpp_social_network_clien.Common.{
  ℤ, Bool, true, false, ◌||◌, ◌≡◌, refl, none, some, List, [], ◌∷◌, ◌++◌, Text, text, arith, any,
  ◌==◌, text_eq, text_beq, if◌then◌else◌,
}
use cpp_social_network_clien.CommandFactory.{create}
use cpp_social_network_clien.Client.Texts.{contains, starts_with, contains-append_right}

pub data LogLevel : Type 0 where
  info warning error : LogLevel

abbrev pub level_to_string : LogLevel → Text
level_to_string info = text "INFO"
level_to_string warning = text "WARNING"
level_to_string error = text "ERROR"

-- A line of the log.
abbrev pub log_entry : Text → LogLevel → Text → Text
log_entry current_timestamp level message =
    text "["
    ++ (current_timestamp ++ (text "] [" ++ (level_to_string level ++ (text "] " ++ message))))

-- The requests that the Qt client repeats by itself.
abbrev pub is_polling : Text → Bool
is_polling input =
    input == text "list_posts" || input == text "list_friends" || input == text "show"

-- What the loop logs for a line of input.
unfoldable pub request_log : Text → ℤ → Text → List Text
unfolding create
request_log current_timestamp indeterminate input =
    let unknown : List Text = elim (create indeterminate input) [
      | none ↦ log_entry current_timestamp warning (text "Unknown command: " ++ input) ∷ []
      | some command ↦ []
    ] in
    if is_polling input then unknown else log_entry current_timestamp info input ∷ unknown

log_entry-contains :
    (p current_timestamp : Text) (level : LogLevel) (message : Text)
    → contains p message ≡ true
    → contains p (log_entry current_timestamp level message) ≡ true
log_entry-contains p current_timestamp level message h = contains-append_right p (text "[") _ (
    contains-append_right p current_timestamp _ (
      contains-append_right p (text "] [") _ (
        contains-append_right p (level_to_string level) _
          (contains-append_right p (text "] ") message h))))

starts_with_self : (p : Text) → starts_with p p ≡ true
unfolding starts_with
starts_with_self [] = refl
starts_with_self (c ∷ p) = ground (arith, starts_with_self p)

contains_self : (p : Text) → contains p p ≡ true
unfolding contains
contains_self [] = unfold starts_with in refl
contains_self (c ∷ p) = ground (arith, starts_with_self (c ∷ p))

login_logged : (user pass : Text) → contains pass (text "login " ++ (user ++ 32 ∷ pass)) ≡ true
login_logged user pass = contains-append_right pass (text "login ") _ (
    contains-append_right pass user _
      (contains-append_right pass (text " ") pass (contains_self pass)))

-- What stands in a line stands in the log, unless it is one of the three.
request_log-contains :
    (p current_timestamp : Text) (indeterminate : ℤ) (input : Text)
    → is_polling input ≡ false
    → contains p input ≡ true
    → any (contains p) (request_log current_timestamp indeterminate input) ≡ true
unfolding request_log any
request_log-contains p current_timestamp indeterminate input other h =
    rw (other, log_entry-contains p current_timestamp info input h) refl

-- The password of every login, whether or not it succeeds, stands in the log.
pub request_log-login :
    (current_timestamp : Text) (indeterminate : ℤ) (user pass : Text)
    → any
        (contains pass)
        (request_log current_timestamp indeterminate (text "login " ++ (user ++ 32 ∷ pass)))
      ≡ true
request_log-login current_timestamp indeterminate user pass =
    request_log-contains pass current_timestamp indeterminate (text "login " ++ (user ++ 32 ∷ pass))
      (unfold text_beq in refl) (login_logged user pass)
