-- ===== src/Client/Actions/Created.antt =====
-- qt_client and server/CommandFactory.cpp: the command that the server makes of what a window
-- sends.
use cpp_social_network_clien.Common.{
  ℕ, zero, suc, ◌<◌, ◌≤◌, ◌^◌, ℤ, pos, true, false, not, ◌≡◌, refl, ◌∙◌, some, [], ◌∷◌, ◌++◌, Text,
  text, arith, ◌==◌, nat_eq, text_beq,
}
use cpp_social_network_clien.Stream.{take_while, extract_int, get_line}
use cpp_social_network_clien.Stream.Words.{
  IsWord, take_while-all, extract_word_lem, extract_word_last,
}
use cpp_social_network_clien.Decimal.{int_to_string}
use cpp_social_network_clien.Decimal.Reading.{extract_int-to_string}
use cpp_social_network_clien.Command.{Command}
use cpp_social_network_clien.CommandFactory.{
  create, create_register, create_word, create_set_friend_type, create_create_post, create_chat,
  erase_space,
}
use cpp_social_network_clien.CommandFactory.RoundTrip.{behind, create-set_friend_type_behind}
use cpp_social_network_clien.Client.Texts.{one_line}
use cpp_social_network_clien.Client.Actions.{beside}

module _ (indeterminate : ℤ) where
  create-register_behind :
      (rest : Text)
      → create indeterminate (text "register " ++ rest) ≡ create_register (behind rest)
  unfolding create text_beq
  create-register_behind rest = refl

  pub create-register :
      (user pass email role visibility : Text)
      → IsWord user
      → IsWord pass
      → IsWord email
      → IsWord role
      → IsWord visibility
      → create indeterminate
          (text "register " ++ beside user (beside pass (beside email (beside role visibility))))
        ≡ some (Command.register user pass email role visibility)
  unfolding create_register
  create-register user pass email role visibility u p m r v =
      create-register_behind _
      ∙ rw
          (
            extract_word_lem user (32 ∷ beside pass (beside email (beside role visibility))) [] u
                refl,
            extract_word_lem pass (32 ∷ beside email (beside role visibility)) [] p refl,
            extract_word_lem email (32 ∷ beside role visibility) [] m refl,
            extract_word_lem role (32 ∷ visibility) [] r refl,
            extract_word_last visibility [] v,
          )
          refl

  pub create_word_lem :
      (command : Text → Command) (word : Text)
      → IsWord word
      → create_word command (behind word) ≡ some (command word)
  unfolding create_word
  create_word_lem command word v = rw (extract_word_last word [] v) refl

  pub create-add_friend_behind :
      (user : Text)
      → create indeterminate (text "add_friend " ++ user)
        ≡ create_word Command.friend_request (behind user)
  unfolding create text_beq
  create-add_friend_behind user = refl

  pub create-accept_friend_behind :
      (user : Text)
      → create indeterminate (text "accept_friend " ++ user)
        ≡ create_word Command.accept_friend (behind user)
  unfolding create text_beq
  create-accept_friend_behind user = refl

  create-chat_behind :
      (user : Text) → create indeterminate (text "chat " ++ user) ≡ create_chat (behind user)
  unfolding create text_beq
  create-chat_behind user = refl

  pub create-chat :
      (user : Text)
      → IsWord user
      → create indeterminate (text "chat " ++ user) ≡ some (Command.chat user)
  unfolding create_chat
  create-chat user u = create-chat_behind user ∙ rw (extract_word_last user [] u, u.nonempty) refl

  pub create-set_friend_type :
      (user : Text) (n : ℕ)
      → IsWord user
      → n < 2 ^ 31
      → create indeterminate (text "set_friend_type " ++ beside user (int_to_string (pos n)))
        ≡ some (Command.set_friend_type user (pos n))
  unfolding create_set_friend_type
  create-set_friend_type user n u small =
      create-set_friend_type_behind indeterminate (beside user (int_to_string (pos n)))
      ∙ rw
          (
            extract_word_lem user (32 ∷ int_to_string (pos n)) [] u refl,
            extract_int-to_string n indeterminate small,
          )
          refl

  create-create_post_behind :
      (rest : Text)
      → create indeterminate (text "create_post " ++ rest)
        ≡ create_create_post indeterminate (behind rest)
  unfolding create text_beq
  create-create_post_behind rest = refl

  -- The three numbers of the box.
  extract_int-visibility :
      (n : ℕ) (content : Text)
      → n ≤ 2
      → extract_int (behind (beside (int_to_string (pos n)) content)) indeterminate
        ≡ (record { rest = 32 ∷ content; eof = false; failed = false }, pos n)
  unfolding extract_int int_to_string
  extract_int-visibility zero content h = refl
  extract_int-visibility (suc zero) content h = refl
  extract_int-visibility (suc (suc zero)) content h = refl
  extract_int-visibility (suc (suc (suc n))) content h = absurd (omega arith)

  pub create-create_post :
      (n : ℕ) (content : Text)
      → n ≤ 2
      → one_line content ≡ true
      → create indeterminate (text "create_post " ++ beside (int_to_string (pos n)) content)
        ≡ some (Command.create_post (pos n) content)
  unfolding create_create_post get_line take_while erase_space
  create-create_post n content h flat =
      create-create_post_behind (beside (int_to_string (pos n)) content)
      ∙ rw (extract_int-visibility n content h, take_while-all (λ c. not (c == 10)) content flat)
          refl

  pub create-plain :
      (create indeterminate (text "logout") ≡ some Command.logout)
      × (create indeterminate (text "list_friends") ≡ some Command.list_friends)
      × (create indeterminate (text "list_posts") ≡ some Command.list_posts)
      × (create indeterminate (text "list_friend_requests") ≡ some Command.list_friend_requests)
      × (create indeterminate (text "show") ≡ some Command.show)
      × (create indeterminate (text "chats") ≡ some Command.chats)
  unfolding create text_beq
  create-plain = (refl, refl, refl, refl, refl, refl)
