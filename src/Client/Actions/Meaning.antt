-- ===== src/Client/Actions/Meaning.antt =====
-- qt_client and server: what the actions of a user mean, and what the server does on them.
use cpp_social_network_clien.Common.{
  ℕ, ◌<◌, ◌≤◌, ◌^◌, ℤ, pos, true, false, ◌≡◌, refl, subst, sym, ◌∙◌, Option, none, some, List, [],
  ◌∷◌, ◌++◌, Text, text, arith, All, is_empty,
}
use cpp_social_network_clien.Stream.Words.{IsWord}
use cpp_social_network_clien.Decimal.{int_to_string}
use cpp_social_network_clien.Command.{Command}
use cpp_social_network_clien.CommandFactory.{create}
use cpp_social_network_clien.CommandFactory.RoundTrip.{
  create-send, create-login, create-open, create-group, spaced,
}
use cpp_social_network_clien.Client.Texts.{one_line}
use cpp_social_network_clien.Client.Actions.{
  Action, beside, sent_line, click_login, click_register, click_logout, load_friends, load_posts,
  click_add, load_requests, click_accept, send_type, send_post, click_conversation, click_send,
  load_messages, load_conversations, new_chat, new_group,
}
use cpp_social_network_clien.Client.Actions.Created.{
  create-register, create_word_lem, create-add_friend_behind, create-accept_friend_behind,
  create-chat, create-set_friend_type, create-create_post, create-plain,
}

-- The command that an action stands for: names, passwords and addresses are words, messages and
-- posts one line that is not empty, and numbers those that the windows offer.
pub data Means (trimmed : Text → Text) : Action → Command → Type 0 where
  logging_in :
      {user pass : Text}
      → IsWord user
      → IsWord pass
      → Means trimmed (click_login user pass) (Command.login user pass)
  registering :
      {user pass email role visibility : Text}
      → IsWord user
      → IsWord pass
      → IsWord email
      → IsWord role
      → IsWord visibility
      → Means trimmed
          (click_register user pass email role visibility)
          (Command.register user pass email role visibility)
  logging_out : Means trimmed click_logout Command.logout
  seeing_friends : Means trimmed load_friends Command.list_friends
  seeing_posts : Means trimmed load_posts Command.list_posts
  adding :
      {user : Text} → IsWord user → Means trimmed (click_add user) (Command.friend_request user)
  seeing_requests : Means trimmed load_requests Command.list_friend_requests
  accepting :
      {user : Text} → IsWord user → Means trimmed (click_accept user) (Command.accept_friend user)
  typing :
      {user : Text} (n : ℕ)
      → IsWord user
      → n ≤ 2
      → Means trimmed (send_type user (pos n)) (Command.set_friend_type user (pos n))
  posting :
      {content : Text} (n : ℕ)
      → n ≤ 2
      → is_empty (trimmed content) ≡ false
      → one_line (trimmed content) ≡ true
      → Means trimmed (send_post (pos n) content) (Command.create_post (pos n) (trimmed content))
  opening :
      (n : ℕ)
      → n < 2 ^ 31
      → Means trimmed (click_conversation (pos n)) (Command.open_conversation (pos n))
  sending :
      {input : Text}
      → is_empty (trimmed input) ≡ false
      → one_line (trimmed input) ≡ true
      → Means trimmed (click_send input) (Command.send (trimmed input))
  reading : Means trimmed load_messages Command.show
  seeing_conversations : Means trimmed load_conversations Command.chats
  chatting : {user : Text} → IsWord user → Means trimmed (new_chat user) (Command.chat user)
  grouping :
      {users : Text} (w : Text) (ws : List Text)
      → All IsWord (w ∷ ws)
      → users ≡ spaced (w ∷ ws)
      → Means trimmed (new_group users) (Command.group (w ∷ ws))

-- The command that the server makes of the line, if one is sent.
unfoldable pub sent_command : (Text → Text) → ℤ → Action → Option Command
unfolding sent_line create
sent_command trimmed indeterminate a = elim (sent_line trimmed a) [
  | none ↦ none
  | some line ↦ create indeterminate line
]

sent_command_lem :
    (trimmed : Text → Text) (indeterminate : ℤ) (a : Action) (line : Text) (c : Command)
    → sent_line trimmed a ≡ some line
    → create indeterminate line ≡ some c
    → sent_command trimmed indeterminate a ≡ some c
unfolding sent_command
sent_command_lem trimmed indeterminate a line c h k = ground arith

spaced-is_empty : (w : Text) (ws : List Text) → IsWord w → is_empty (spaced (w ∷ ws)) ≡ false
spaced-is_empty w [] v = v.nonempty
spaced-is_empty [] (x ∷ ws) v = absurd (ground (arith, v.nonempty))
spaced-is_empty (c ∷ w) (x ∷ ws) v = refl

-- Every action reaches the server as the command that it stands for.
pub sent_command-Means :
    (trimmed : Text → Text) (indeterminate : ℤ) {a : Action} {c : Command}
    → Means trimmed a c
    → sent_command trimmed indeterminate a ≡ some c
sent_command-Means trimmed i (logging_in {user} {pass} u p) =
    sent_command_lem trimmed i (click_login user pass) (text "login " ++ beside user pass) _
      (unfold sent_line in rw (u.nonempty, p.nonempty) refl) (create-login i user pass u p)
sent_command-Means trimmed i (registering {user} {pass} {email} {role} {visibility} u p m r v) =
    sent_command_lem trimmed i (click_register user pass email role visibility)
      (text "register " ++ beside user (beside pass (beside email (beside role visibility)))) _
      (unfold sent_line in rw (u.nonempty, p.nonempty, m.nonempty) refl)
      (create-register i user pass email role visibility u p m r v)
sent_command-Means trimmed i logging_out =
    sent_command_lem trimmed i click_logout (text "logout") _ (unfold sent_line in refl)
      (create-plain i).0
sent_command-Means trimmed i seeing_friends =
    sent_command_lem trimmed i load_friends (text "list_friends") _ (unfold sent_line in refl)
      (create-plain i).1
sent_command-Means trimmed i seeing_posts =
    sent_command_lem trimmed i load_posts (text "list_posts") _ (unfold sent_line in refl)
      (create-plain i).2
sent_command-Means trimmed i (adding {user} u) =
    sent_command_lem trimmed i (click_add user) (text "add_friend " ++ user) _
      (unfold sent_line in rw u.nonempty refl)
      (create-add_friend_behind i user ∙ create_word_lem i Command.friend_request user u)
sent_command-Means trimmed i seeing_requests =
    sent_command_lem trimmed i load_requests (text "list_friend_requests") _
      (unfold sent_line in refl) (create-plain i).3
sent_command-Means trimmed i (accepting {user} u) =
    sent_command_lem trimmed i (click_accept user) (text "accept_friend " ++ user) _
      (unfold sent_line in refl)
      (create-accept_friend_behind i user ∙ create_word_lem i Command.accept_friend user u)
sent_command-Means trimmed i (typing {user} n u h) =
    sent_command_lem trimmed i (send_type user (pos n))
      (text "set_friend_type " ++ beside user (int_to_string (pos n))) _ (unfold sent_line in refl)
      (create-set_friend_type i user n u (omega arith))
sent_command-Means trimmed i (posting {content} n h given flat) =
    sent_command_lem trimmed i (send_post (pos n) content)
      (text "create_post " ++ beside (int_to_string (pos n)) (trimmed content)) _
      (unfold sent_line in rw given refl) (create-create_post i n (trimmed content) h flat)
sent_command-Means trimmed i (opening n small) =
    sent_command_lem trimmed i (click_conversation (pos n)) (text "open " ++ int_to_string (pos n))
      _ (unfold sent_line in refl) (create-open i n small)
sent_command-Means trimmed i (sending {input} given flat) =
    sent_command_lem trimmed i (click_send input) (text "send " ++ trimmed input) _
      (unfold sent_line in rw given refl) (create-send i (trimmed input) given flat)
sent_command-Means trimmed i reading =
    sent_command_lem trimmed i load_messages (text "show") _ (unfold sent_line in refl)
      (create-plain i).4
sent_command-Means trimmed i seeing_conversations =
    sent_command_lem trimmed i load_conversations (text "chats") _ (unfold sent_line in refl)
      (create-plain i).5
sent_command-Means trimmed i (chatting {user} u) =
    sent_command_lem trimmed i (new_chat user) (text "chat " ++ user) _
      (unfold sent_line in rw u.nonempty refl) (create-chat i user u)
sent_command-Means trimmed i (grouping {users} w ws v h) =
    subst (λ (t : Text). sent_command trimmed i (new_group t) ≡ some (Command.group (w ∷ ws)))
      (sym h)
      (sent_command_lem trimmed i (new_group (spaced (w ∷ ws))) (text "group " ++ spaced (w ∷ ws)) _
        (unfold sent_line in rw (spaced-is_empty w ws v.0) refl) (create-group i w ws v))
