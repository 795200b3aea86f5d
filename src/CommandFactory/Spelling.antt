-- ===== src/CommandFactory/Spelling.antt =====
-- server/CommandFactory.cpp: the name in a command to register is a word, unless it is empty.
use cpp_social_network_clien.Common.{
  ℕ, ℤ, ◌≡◌, refl, Bool, true, false, not, Option, none, some, [], ◌∷◌, Text, text, arith, all,
  is_empty, if_both, ◌==◌, text_eq, length, suc, subst,
}
use cpp_social_network_clien.Stream.{
  Stream, is_space, take_while, skip_space, extract_word, extract_int, get_line, open_stream,
}
use cpp_social_network_clien.Stream.Words.{IsWord}
use cpp_social_network_clien.Command.{Command}
use cpp_social_network_clien.Commands.Named.{IsSpelled}
use cpp_social_network_clien.CommandFactory.{
  create, dispatch, create_login, create_register, create_set_friend_type, create_create_post,
  create_chat, create_open, create_send, create_group, create_add, create_word, read_users,
  erase_space,
}

abbrev Spelled : Option Command → Type 0
Spelled none = Unit
Spelled (some c) = IsSpelled c

all-take_while : (p : ℕ → Bool) (s : Text) → all p (take_while p s) ≡ true
unfolding take_while all
all-take_while p [] = refl
all-take_while p (c ∷ s) = ground (arith, all-take_while p s)

extract_word-unspaced : (s : Stream) → all (λ c. not (is_space c)) (extract_word s []).1 ≡ true
unfolding extract_word
extract_word-unspaced s =
    if_both (λ (r : Stream × Text). all (λ c. not (is_space c)) r.1 ≡ true) (skip_space s).failed _
      _ (λ _. unfold all in refl) (λ _. all-take_while (λ c. not (is_space c)) (skip_space s).rest)

-- What is read into an empty string is a word, unless it is empty still.
extract_word-IsWord :
    (s : Stream) → is_empty (extract_word s []).1 ≡ false → IsWord (extract_word s []).1
extract_word-IsWord s h = record { nonempty = h; unspaced = extract_word-unspaced s }

create_register-Spelled : (ss : Stream) → Spelled (create_register ss)
unfolding create_register
create_register-Spelled ss = λ h. extract_word-IsWord ss h

create_chat-Spelled : (ss : Stream) → Spelled (create_chat ss)
unfolding create_chat
create_chat-Spelled ss = if_both Spelled (is_empty (extract_word ss []).1) _ _ (λ _. tt) (λ _. tt)

create_open-Spelled : (i : ℤ) (ss : Stream) → Spelled (create_open i ss)
unfolding create_open
create_open-Spelled i ss = if_both Spelled ((extract_int ss i).0.failed) _ _ (λ _. tt) (λ _. tt)

create_send-Spelled : (ss : Stream) → Spelled (create_send ss)
unfolding create_send
create_send-Spelled ss =
    if_both Spelled (is_empty (erase_space (get_line ss))) _ _ (λ _. tt) (λ _. tt)

create_group-Spelled : (ss : Stream) → Spelled (create_group ss)
unfolding create_group
create_group-Spelled ss =
    if_both Spelled (is_empty (read_users (suc (length ss.rest)) ss [])) _ _ (λ _. tt) (λ _. tt)

create_add-Spelled : (ss : Stream) → Spelled (create_add ss)
unfolding create_add
create_add-Spelled ss = if_both Spelled (is_empty (extract_word ss []).1) _ _ (λ _. tt) (λ _. tt)

dispatch-Spelled :
    (indeterminate : ℤ) (cmd : Text) (ss : Stream) → Spelled (dispatch indeterminate cmd ss)
unfolding dispatch
dispatch-Spelled indeterminate cmd ss =
    if_both Spelled (cmd == text "login") _ _ (λ _. unfold create_login in tt)
      (λ _.
        if_both Spelled (cmd == text "register") _ _ (λ _. create_register-Spelled ss)
          (λ _.
            if_both Spelled (cmd == text "logout") _ _ (λ _. tt)
              (λ _.
                if_both Spelled (cmd == text "set_visibility") _ _ (λ _. unfold create_word in tt)
                  (λ _.
                    if_both Spelled (cmd == text "add_friend") _ _ (λ _. unfold create_word in tt)
                      (λ _.
                        if_both Spelled (cmd == text "accept_friend") _ _
                          (λ _. unfold create_word in tt)
                          (λ _.
                            if_both Spelled (cmd == text "list_friends") _ _ (λ _. tt)
                              (λ _.
                                if_both Spelled (cmd == text "set_friend_type") _ _
                                  (λ _. unfold create_set_friend_type in tt)
                                  (λ _.
                                    if_both Spelled (cmd == text "list_friend_requests") _ _
                                      (λ _. tt)
                                      (λ _.
                                        if_both Spelled (cmd == text "create_post") _ _
                                          (λ _. unfold create_create_post in tt)
                                          (λ _.
                                            if_both Spelled (cmd == text "list_posts") _ _ (λ _. tt)
                                              (λ _.
                                                if_both Spelled (cmd == text "chats") _ _ (λ _. tt)
                                                  (λ _.
                                                    if_both Spelled (cmd == text "chat") _ _
                                                      (λ _. create_chat-Spelled ss)
                                                      (λ _.
                                                        if_both Spelled (cmd == text "open") _ _
                                                          (λ _.
                                                            create_open-Spelled indeterminate ss)
                                                          (λ _.
                                                            if_both Spelled (cmd == text "send") _ _
                                                            (λ _. create_send-Spelled ss)
                                                            (λ _.
                                                            if_both Spelled (cmd == text "show") _ _
                                                            (λ _. tt)
                                                            (λ _.
                                                            if_both Spelled (cmd == text "group") _
                                                            _ (λ _. create_group-Spelled ss)
                                                            (λ _.
                                                            if_both Spelled (cmd == text "add") _ _
                                                            (λ _. create_add-Spelled ss)
                                                            (λ _. tt))))))))))))))))))

pub create-IsSpelled :
    (indeterminate : ℤ) (input : Text) (c : Command)
    → create indeterminate input ≡ some c
    → IsSpelled c
create-IsSpelled indeterminate input c h = subst Spelled h (
    unfold create in
    dispatch-Spelled indeterminate (extract_word (open_stream input) []).1
      (extract_word (open_stream input) []).0)
