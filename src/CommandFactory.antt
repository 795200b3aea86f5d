-- ===== src/CommandFactory.antt =====
-- server/CommandFactory.cpp: from the line of a client to a command; `none` is nullptr.
pub mod RoundTrip
pub mod Spelling
use cpp_social_network_clien.Common.{
  ℕ, zero, suc, Bool, Option, none, some, List, [], ◌∷◌, ℤ, Text, text, ◌==◌, nat_eq, text_eq,
  if◌then◌else◌, length, is_empty,
}
use cpp_social_network_clien.Stream.{Stream, open_stream, extract_word, extract_int, get_line}
use cpp_social_network_clien.Command.{Command}

-- if (!content.empty() && content[0] == ' ') content.erase(0, 1);
unfoldable pub erase_space : Text → Text
erase_space [] = []
erase_space (c ∷ content) = if c == 32 then content else c ∷ content

-- while (ss >> u) users.push_back(u); every round reads a byte, so that fuel above the number of
-- bytes left is enough.
unfoldable pub read_users : ℕ → Stream → Text → List Text
read_users zero s u = []
read_users (suc fuel) s u =
    let (after, word) = extract_word s u in
    let rest = word ∷ read_users fuel after word in if after.failed then [] else rest

-- Each branch of `create` behind the name of its command. `indeterminate` is what a local `int`
-- holds that nothing was read into.
unfoldable pub create_login : Stream → Option Command
create_login ss =
    let (ss, user) = extract_word ss [] in
    let (ss, pass) = extract_word ss [] in some (Command.login user pass)

unfoldable pub create_register : Stream → Option Command
create_register ss =
    let (ss, user) = extract_word ss [] in
    let (ss, pass) = extract_word ss [] in
    let (ss, email) = extract_word ss [] in
    let (ss, role) = extract_word ss [] in
    let (ss, visibility) = extract_word ss [] in
    some (Command.register user pass email role visibility)

unfoldable pub create_set_friend_type : ℤ → Stream → Option Command
create_set_friend_type indeterminate ss =
    let (ss, user) = extract_word ss [] in
    let (ss, type) = extract_int ss indeterminate in some (Command.set_friend_type user type)

unfoldable pub create_create_post : ℤ → Stream → Option Command
create_create_post indeterminate ss =
    let (ss, vis) = extract_int ss indeterminate in
    some (Command.create_post vis (erase_space (get_line ss)))

unfoldable pub create_chat : Stream → Option Command
create_chat ss =
    let (ss, other_user) = extract_word ss [] in
    if is_empty other_user then none else some (Command.chat other_user)

unfoldable pub create_open : ℤ → Stream → Option Command
create_open indeterminate ss =
    let (ss, conv_id) = extract_int ss indeterminate in
    if ss.failed then none else some (Command.open_conversation conv_id)

unfoldable pub create_send : Stream → Option Command
create_send ss =
    let content = erase_space (get_line ss) in
    if is_empty content then none else some (Command.send content)

unfoldable pub create_group : Stream → Option Command
create_group ss =
    let users = read_users (suc (length ss.rest)) ss [] in
    if is_empty users then none else some (Command.group users)

unfoldable pub create_add : Stream → Option Command
create_add ss =
    let (ss, user) = extract_word ss [] in if is_empty user then none else some (Command.add user)

-- The commands with one word as their argument, which may be missing.
unfoldable pub create_word : (Text → Command) → Stream → Option Command
create_word command ss = let (ss, word) = extract_word ss [] in some (command word)

-- The chain of tests on the command's name.
unfoldable pub dispatch : ℤ → Text → Stream → Option Command
unfolding create_login create_register create_set_friend_type create_create_post create_chat
    create_open create_send create_group create_add create_word
dispatch indeterminate cmd ss =
    if cmd == text "login"
    then create_login ss
    else if cmd == text "register"
    then create_register ss
    else if cmd == text "logout"
    then some Command.logout
    else if cmd == text "set_visibility"
    then create_word Command.set_profile_visibility ss
    else if cmd == text "add_friend"
    then create_word Command.friend_request ss
    else if cmd == text "accept_friend"
    then create_word Command.accept_friend ss
    else if cmd == text "list_friends"
    then some Command.list_friends
    else if cmd == text "set_friend_type"
    then create_set_friend_type indeterminate ss
    else if cmd == text "list_friend_requests"
    then some Command.list_friend_requests
    else if cmd == text "create_post"
    then create_create_post indeterminate ss
    else if cmd == text "list_posts"
    then some Command.list_posts
    else if cmd == text "chats"
    then some Command.chats
    else if cmd == text "chat"
    then create_chat ss
    else if cmd == text "open"
    then create_open indeterminate ss
    else if cmd == text "send"
    then create_send ss
    else if cmd == text "show"
    then some Command.show
    else if cmd == text "group"
    then create_group ss
    else if cmd == text "add"
    then create_add ss
    else none

unfoldable pub create : ℤ → Text → Option Command
unfolding dispatch extract_word
create indeterminate input =
    let (ss, cmd) = extract_word (open_stream input) [] in dispatch indeterminate cmd ss
