-- ===== src/Examples/Runs.antt =====
-- The definitions at concrete inputs.
use cpp_social_network_clien.Common.{
  Bool, true, false, not, any, ◌≡◌, refl, none, some, [], ◌∷◌, ◌++◌, pos, negsuc, text, select,
  text_beq, to_int,
}
use cpp_social_network_clien.Decimal.{digits, int_to_string}
use cpp_social_network_clien.Stream.{
  extract_word, extract_int, skip_space, parse_int, parse_digits, digits_value, take_while,
  drop_while, get_line,
}
use cpp_social_network_clien.Database.{query, exec, perform, Sql, Engine}
use cpp_social_network_clien.Database.Friends.{get_friend_requests}
use cpp_social_network_clien.Database.Messages.{
  create_conversation, add_participant, member, is_participant, add_participants,
  create_group_conversation,
}
use cpp_social_network_clien.Command.{Command}
use cpp_social_network_clien.CommandFactory.{
  create, dispatch, create_open, create_create_post, erase_space,
}
use cpp_social_network_clien.Server.{trim_end}
use cpp_social_network_clien.Database.Users.{get_user_by_username, user_row}
use cpp_social_network_clien.SessionManager.{
  find, put, erase, login, open_conversation, is_authenticated, get_username,
  get_current_conversation,
}
use cpp_social_network_clien.Commands.Messaging.{execute_group, first_unknown}
use cpp_social_network_clien.Examples.Setting.{ada_online, ideal, town}

-- 2^31 does not fit into an int.
wrapped : to_int 2147483648 ≡ negsuc 2147483647
unfolding to_int
wrapped = refl

printed : int_to_string (negsuc 119) ≡ text "-120"
unfolding int_to_string digits
printed = refl

trimmed : trim_end (text "show" ++ 13 ∷ 10 ∷ []) ≡ text "show"
unfolding trim_end
trimmed = refl

-- A number that is too large sets failbit, and `open` gives no command.
too_large : create (pos 7) (text "open 2147483648") ≡ none
unfolding create dispatch text_beq create_open extract_word extract_int skip_space parse_int
    parse_digits digits_value take_while drop_while
too_large = refl

-- `create_post` without a number reads nothing and posts an empty text.
no_number : create (pos 7) (text "create_post x") ≡ some (Command.create_post (pos 0) [])
unfolding create dispatch text_beq create_create_post extract_word extract_int skip_space parse_int
    parse_digits digits_value take_while drop_while get_line erase_space
no_number = refl

requests : get_friend_requests ideal town (text "ada") ≡ text "cyd" ∷ []
unfolding get_friend_requests query select text_beq
requests = refl

-- Ada and Bob share a conversation, and a second one is created.
second_chat : (create_conversation ideal town (text "ada") (text "bob")).1 ≡ pos 2
unfolding create_conversation exec perform to_int
second_chat = refl

-- SQLite that refuses every new participant.
abbrev refuses : Sql → Bool
refuses (Sql.insert_participant c u) = true
refuses _ = false

abbrev stubborn : Engine
stubborn = record {
  now = text "2024-05-02 10:00:00";
  prepares = λ _ _. true;
  steps = λ q _. not (refuses q);
  deliver = λ A q db rows. rows;
}

-- `group` does not look at whether the participants were added: Ada has a conversation open that
-- she does not take part in.
unowned_group :
    let after = (execute_group stubborn (text "bob" ∷ []) 5 ada_online).0 in
    (get_current_conversation 5 after.sessions ≡ pos 2)
    × (any (member (pos 2) (text "ada")) after.db.participants ≡ false)
unfolding execute_group first_unknown create_group_conversation add_participants add_participant
    is_participant get_user_by_username user_row query exec perform select any text_beq to_int
    get_current_conversation get_username is_authenticated find put erase login open_conversation
unowned_group = (refl, refl)
