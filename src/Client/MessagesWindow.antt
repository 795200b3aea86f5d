-- ===== src/Client/MessagesWindow.antt =====
-- qt_client/MessagesWindow.cpp: the conversations and the messages, from the responses of the
-- server. QString::trimmed is a parameter.
pub mod Items
pub mod Conversations
use cpp_social_network_clien.Common.{
  ℕ, zero, suc, ◌+◌, ◌-◌, Bool, true, false, not, ◌||◌, Option, none, some, List, [], ◌∷◌, ◌++◌,
  map, ℤ, pos, negsuc, Text, text, ◌==◌, nat_eq, int_eq, ltb, if◌then◌else◌, is_empty, count,
  length, take, drop,
}
use cpp_social_network_clien.Stream.{open_stream, extract_int}
use cpp_social_network_clien.Client.Texts.{contains, read_lines}

-- line.find(c)
unfoldable pub index_of : ℕ → Text → Option ℕ
index_of c [] = none
index_of c (d ∷ s) =
    let rest : Option ℕ = elim (index_of c s) [ none ↦ none | some i ↦ some (suc i) ] in
    if d == c then some 0 else rest

-- std::stoi; `none` where it throws, since there is no number or it does not fit.
unfoldable pub stoi : Text → Option ℤ
unfolding extract_int
stoi s =
    let (after, value) = extract_int (open_stream s) (pos 0) in
    if after.failed then none else some value

-- s.substr(from), which throws behind the end.
unfoldable pub substr : ℕ → Text → Option Text
unfolding drop
substr from s = if ltb (length s) from then none else some (drop from s)

-- s.substr(from, count) with `to` - `from` as the count, which is all of the rest if it is
-- negative.
unfoldable pub substr_to : ℕ → ℕ → Text → Option Text
unfolding substr take
substr_to from to s = elim (substr from s) [
  | none ↦ none
  | some rest ↦ if ltb to from then some rest else some (take (to - from) rest)
]

pub record ConversationItem : Type 0 where
  pub label : Text
  pub conversation_id : ℤ

abbrev pub chat_label : Text → Text
chat_label users = 240 ∷ 159 ∷ 146 ∷ 172 ∷ 32 ∷ users

abbrev pub group_label : Text → Text
group_label users = 240 ∷ 159 ∷ 145 ∷ 165 ∷ (text " Group\n" ++ users)

-- Two users are a chat; the users are counted by the commas between them.
unfoldable pub display_text : Text → Text
unfolding count
display_text users =
    if 1 + count (λ c. c == 44) users == 2 then chat_label users else group_label users

-- The item of a line; `none` where an exception leaves the function.
unfoldable pub read_item : ℕ → ℕ → Text → Option ConversationItem
unfolding substr_to stoi display_text
read_item l r line = elim (substr_to (l + 1) r line) [
  | none ↦ none
  | some number ↦ elim (stoi number) [
    | none ↦ none
    | some conversation_id ↦ elim (substr (r + 2) line) [
      | none ↦ none
      | some users ↦ some (record { label = display_text users; conversation_id = conversation_id })
    ]
  ]
]

-- A line that is empty or has no brackets is skipped.
unfoldable pub brackets : Text → Option (ℕ × ℕ)
unfolding index_of
brackets line = elim (index_of 91 line) [
  | none ↦ none
  | some l ↦ elim (index_of 93 line) [ none ↦ none | some r ↦ some (l, r) ]
]

unfoldable pub read_conversations : List Text → Option (List ConversationItem)
unfolding brackets read_item
read_conversations [] = some []
read_conversations (line ∷ lines) =
    let rest = read_conversations lines in
    elim (brackets line) [
      | none ↦ rest
      | some (l, r) ↦ elim (read_item l r line) [
        | none ↦ none
        | some item ↦ elim rest [ none ↦ none | some items ↦ some (item ∷ items) ]
      ]
    ]

unfoldable pub load_conversations : Text → Option (List ConversationItem)
unfolding read_conversations read_lines
load_conversations response = read_conversations (read_lines response)

-- The conversation that was clicked, the lines of `messagesView` and the text of `messageInput`.
pub record MessagesWindow : Type 0 where
  pub current_conversation_id : ℤ
  pub view : List Text
  pub input : Text

-- With the response of `show`.
unfoldable pub load_messages : Text → MessagesWindow → MessagesWindow
unfolding read_lines
load_messages response w =
    if w.current_conversation_id == negsuc 0 then w else record w { view = read_lines response }

-- With the response of `show`; that of `open` is not looked at.
unfoldable pub on_conversation_clicked : ℤ → Text → MessagesWindow → MessagesWindow
unfolding load_messages
on_conversation_clicked conversation_id shown w =
    load_messages shown (record w { current_conversation_id = conversation_id })

-- With the responses of `send` and of `show`.
unfoldable pub on_send_clicked : (Text → Text) → Text → Text → MessagesWindow → MessagesWindow
unfolding contains read_lines
on_send_clicked trimmed response shown w =
    if is_empty (trimmed w.input)
    then w
    else if not (contains (text "OK") response)
    then record w {
      view = w.view ++ (226 ∷ 154 ∷ 160 ∷ 239 ∷ 184 ∷ 143 ∷ text " Failed to send message") ∷ [];
    }
    else record w { input = []; view = read_lines shown }
