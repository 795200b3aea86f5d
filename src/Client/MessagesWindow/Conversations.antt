-- ===== src/Client/MessagesWindow/Conversations.antt =====
-- qt_client/MessagesWindow.cpp, `loadConversations`, on the response of `chats`.
use mathlib.Core.List.{append_assoc}
use cpp_social_network_clien.Common.{
  ℕ, suc, ◌+◌, ◌^◌, ℤ, pos, negsuc, Bool, true, false, not, ◌&&◌, ◌≡◌, refl, ap, ◌∙◌, some, List,
  [], ◌∷◌, ◌++◌, map, Text, text, arith, all, all_mono, is_empty, ◌==◌, nat_eq, if◌then◌else◌,
  count, length, ltb,
}
use cpp_social_network_clien.Decimal.{int_to_string, to_string}
use cpp_social_network_clien.Database.{Database, Engine}
use cpp_social_network_clien.Database.Messages.{
  get_user_conversations, get_conversation_participants,
}
use cpp_social_network_clien.SessionManager.{is_authenticated, get_username}
use cpp_social_network_clien.App.{App}
use cpp_social_network_clien.Commands.Messaging.{comma_separated, chat_lines, execute_chats}
use cpp_social_network_clien.Client.Texts.{one_line, read_lines}
use cpp_social_network_clien.Client.Lines.{
  unlines, one_line-append, read_lines-unlines, int-one_line,
}
use cpp_social_network_clien.Client.MessagesWindow.{
  index_of, ConversationItem, chat_label, group_label, display_text, read_item, brackets,
  read_conversations, load_conversations,
}
use cpp_social_network_clien.Client.MessagesWindow.Items.{
  chat_line, brackets-chat_line, read_item-chat_line,
}

-- The text of an item shows two users, whose names have no comma, as a chat, and any other number
-- as a group.
abbrev pub is_plain : Text → Bool
is_plain name = all (λ c. not (c == 10) && not (c == 44)) name

plain-one_line : (name : Text) → is_plain name ≡ true → one_line name ≡ true
plain-one_line name h = all_mono _ (λ c. not (c == 10)) name (λ c k. ground arith) h

count-plain : (name : Text) → is_plain name ≡ true → count (λ c. c == 44) name ≡ 0
unfolding count all
count-plain [] h = refl
count-plain (c ∷ name) h = ground (arith, count-plain name)

count-append :
    (s t : Text) → count (λ c. c == 44) (s ++ t) ≡ count (λ c. c == 44) s + count (λ c. c == 44) t
unfolding count
count-append [] t = omega arith
count-append (c ∷ s) t = ground (arith, count-append s t)

one_comma : count {A = ℕ} (λ c. c == 44) (44 ∷ 32 ∷ []) ≡ 1
unfolding count
one_comma = refl

count-comma_separated :
    (u : Text) (users : List Text)
    → all is_plain (u ∷ users) ≡ true
    → count (λ c. c == 44) (comma_separated (u ∷ users)) ≡ length users
unfolding comma_separated all
count-comma_separated u [] h = count-plain u (ground arith)
count-comma_separated u (v ∷ users) h = ground (
  arith,
  count-append (u ++ (44 ∷ 32 ∷ [])) (comma_separated (v ∷ users)),
  count-append u (44 ∷ 32 ∷ []),
  one_comma,
  count-plain u,
  count-comma_separated v users,
)

comma_separated-one_line :
    (users : List Text) → all is_plain users ≡ true → one_line (comma_separated users) ≡ true
unfolding comma_separated all
comma_separated-one_line [] h = refl
comma_separated-one_line (u ∷ []) h = plain-one_line u (ground arith)
comma_separated-one_line (u ∷ v ∷ users) h =
    one_line-append (u ++ text ", ") (comma_separated (v ∷ users))
      (one_line-append u (text ", ") (plain-one_line u (ground arith)) refl)
      (comma_separated-one_line (v ∷ users) (ground arith))

abbrev pub users_label : List Text → Text
users_label users =
    if length users == 2
    then chat_label (comma_separated users)
    else group_label (comma_separated users)

display_text-users :
    (users : List Text)
    → all is_plain users ≡ true
    → display_text (comma_separated users) ≡ users_label users
unfolding display_text
display_text-users [] h = unfold comma_separated count in refl
display_text-users (u ∷ users) h = rw (count-comma_separated u users h) (ground arith)

read_conversations_found :
    (line : Text) (lines : List Text) (l r : ℕ) (item : ConversationItem)
    (items : List ConversationItem)
    → brackets line ≡ some (l, r)
    → read_item l r line ≡ some item
    → read_conversations lines ≡ some items
    → read_conversations (line ∷ lines) ≡ some (item ∷ items)
unfolding read_conversations
read_conversations_found line lines l r item items h k m = ground arith

-- An id that fits an `int`.
abbrev pub is_id : ℤ → Bool
is_id (pos n) = ltb n (2 ^ 31)
is_id (negsuc n) = false

module _ (e : Engine) (db : Database) where
  abbrev pub is_shown : ℤ → Bool
  is_shown id = is_id id && all is_plain (get_conversation_participants e db id)

  abbrev pub shown_item : ℤ → ConversationItem
  shown_item id = record {
    label = users_label (get_conversation_participants e db id);
    conversation_id = id;
  }

  abbrev id_line : ℤ → Text
  id_line id =
      text "["
      ++ (int_to_string id
          ++ (text "] " ++ comma_separated (get_conversation_participants e db id)))

  chat_lines_lem :
      (conversations : List ℤ) → chat_lines e db conversations ≡ unlines (map id_line conversations)
  unfolding chat_lines
  chat_lines_lem [] = refl
  chat_lines_lem (id ∷ conversations) = rw (chat_lines_lem conversations) (simp append_assoc)

  id_line-pos :
      (n : ℕ)
      → id_line (pos n) ≡ chat_line n (comma_separated (get_conversation_participants e db (pos n)))
  unfolding int_to_string
  id_line-pos n = refl

  id_line-one_line : (id : ℤ) → is_shown id ≡ true → one_line (id_line id) ≡ true
  id_line-one_line id h = one_line-append (text "[") _ (unfold all in refl) (
      one_line-append (int_to_string id) _ (int-one_line id) (
        one_line-append (text "] ") _ (unfold all in refl)
          (comma_separated-one_line (get_conversation_participants e db id) (ground arith))))

  read_conversations-lines :
      (conversations : List ℤ)
      → all is_shown conversations ≡ true
      → read_conversations (map id_line conversations) ≡ some (map shown_item conversations)
  unfolding all
  read_conversations-lines [] h = unfold read_conversations in refl
  read_conversations-lines (pos n ∷ conversations) h =
      let users = get_conversation_participants e db (pos n) in
      read_conversations_found (id_line (pos n)) (map id_line conversations) 0
        (suc (length (to_string n))) (shown_item (pos n)) (map shown_item conversations)
        (ap brackets (id_line-pos n) ∙ brackets-chat_line n (comma_separated users))
        (ap (read_item 0 (suc (length (to_string n)))) (id_line-pos n)
          ∙ read_item-chat_line n (comma_separated users) (ground arith)
          ∙ ap (λ (label : Text). some (record { label = label; conversation_id = pos n }))
              (display_text-users users (ground arith)))
        (read_conversations-lines conversations (ground arith))
  read_conversations-lines (negsuc n ∷ conversations) h = absurd (ground arith)

  lines-one_line :
      (conversations : List ℤ)
      → all is_shown conversations ≡ true
      → all one_line (map id_line conversations) ≡ true
  unfolding all
  lines-one_line [] h = refl
  lines-one_line (id ∷ conversations) h =
      ground (arith, id_line-one_line id, lines-one_line conversations)

  shown_conversations :
      (conversations : List ℤ)
      → all is_shown conversations ≡ true
      → load_conversations (
          if is_empty conversations then text "No conversations" else chat_lines e db conversations)
        ≡ some (map shown_item conversations)
  unfolding load_conversations
  shown_conversations [] h = unfold read_lines read_conversations brackets index_of in refl
  shown_conversations (id ∷ conversations) h =
      rw
        (
          chat_lines_lem (id ∷ conversations),
          read_lines-unlines (map id_line (id ∷ conversations))
              (lines-one_line (id ∷ conversations) h),
        )
        (read_conversations-lines (id ∷ conversations) h)

-- On the whole response: the list has an item for every conversation of the user who is logged in,
-- in the order in which the server has them and with its id, labelled as a chat if it has two
-- participants and as a group otherwise, and no exception is thrown. The ids have to fit an `int`,
-- and the names to be without commas and newlines.
pub load_conversations-chats :
    (e : Engine) (sd : ℕ) (s : App)
    → is_authenticated sd s.sessions ≡ true
    → all (is_shown e s.db) (get_user_conversations e s.db (get_username sd s.sessions)) ≡ true
    → load_conversations (execute_chats e sd s).1
      ≡ some (map (shown_item e s.db) (get_user_conversations e s.db (get_username sd s.sessions)))
unfolding execute_chats
load_conversations-chats e sd s within shown = rw within (
    ap load_conversations (ground arith)
    ∙ shown_conversations e s.db (get_user_conversations e s.db (get_username sd s.sessions)) shown)
