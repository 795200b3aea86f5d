-- ===== src/Access/Steps.antt =====
-- server/commands/*.cpp: sessions and participants from one command to the next.
use cpp_social_network_clien.Common.{
  ℕ, ℤ, negsuc, Bool, true, false, ◌≡◌, refl, List, [], ◌∷◌, ◌++◌, Text, any, subst, if_both, ltb,
  length, ◌≢◌, arith,
}
use cpp_social_network_clien.Database.{Database, Engine, IsReliable, exec, insert_conversation}
use cpp_social_network_clien.Database.Messages.{
  member, add_participant, add_participants, create_group_conversation, last_insert_rowid,
}
use cpp_social_network_clien.Database.Growth.{Grows, Grows-refl, Grows-IsKept}
use cpp_social_network_clien.Database.Keeps.{any_names, create_group_conversation-keeps}
use cpp_social_network_clien.Database.Queries.{is_participant-any, add_participant-any}
use cpp_social_network_clien.SessionManager.{get_username}
use cpp_social_network_clien.App.{App}
use cpp_social_network_clien.Commands.Keeps.{All-any}
use cpp_social_network_clien.Command.{Command}
use cpp_social_network_clien.Commands.{execute}
use cpp_social_network_clien.Commands.Lasting.{execute-Grows}
use cpp_social_network_clien.Commands.Account.{execute_register, execute_set_profile_visibility}
use cpp_social_network_clien.Commands.Friendship.{
  execute_friend_request, execute_accept_friend, execute_set_friend_type, execute_list_friends,
  execute_list_friend_requests,
}
use cpp_social_network_clien.Commands.Posting.{execute_create_post, execute_list_posts}
use cpp_social_network_clien.Commands.Messaging.{
  execute_chat, execute_chats, execute_send, execute_show, execute_add,
}
use cpp_social_network_clien.Commands.Cases.{login_cases, logout_cases, open_cases, group_cases}
use cpp_social_network_clien.Access.{
  IsConsistent, IsConsistent-db, IsConsistent-login, IsConsistent-logout, IsConsistent-open,
}

-- The last of the users that a loop adds is a participant afterwards.
add_participants_last :
    (e : Engine) (db : Database) (c : ℤ) (users : List Text) (me : Text)
    → IsReliable e
    → any (member c me) (add_participants e db c (users ++ me ∷ [])).participants ≡ true
unfolding add_participants
add_participants_last e db c [] me r = add_participant-any e db c me r
add_participants_last e db c (u ∷ users) me r =
    add_participants_last e (add_participant e db c u).0 c users me r

-- Without a database error, when the creation of a group with its creator as the last user gives a
-- conversation, the creator is a participant of it.
pub create_group_conversation_creator :
    (e : Engine) (db : Database) (users : List Text) (me : Text)
    → IsReliable e
    → (create_group_conversation e db (users ++ me ∷ [])).1 ≢ negsuc 0
    → any
        (member (create_group_conversation e db (users ++ me ∷ [])).1 me)
        (create_group_conversation e db (users ++ me ∷ [])).0.participants
      ≡ true
unfolding create_group_conversation
create_group_conversation_creator e db users me r =
    let created = (exec e insert_conversation db).0 in
    if_both (λ (o : Database × ℤ). o.1 ≢ negsuc 0 → any (member o.1 me) o.0.participants ≡ true)
      (ltb (length (users ++ me ∷ [])) 2) _ _ (λ _ h. absurd (h refl))
      λ _.
        if_both (λ (o : Database × ℤ). o.1 ≢ negsuc 0 → any (member o.1 me) o.0.participants ≡ true)
          (exec e insert_conversation db).1 _ _
          (λ _ _. add_participants_last e created (last_insert_rowid created) users me r)
          (λ _ h. absurd (h refl))

-- The commands that log in, log out or open a conversation.
abbrev pub changes_sessions : Command → Bool
changes_sessions (Command.login _ _) = true
changes_sessions Command.logout = true
changes_sessions (Command.open_conversation _) = true
changes_sessions (Command.group _) = true
changes_sessions _ = false

-- All commands but login, logout, open and group leave the sessions and the open conversations of
-- all sockets alone.
pub execute_sessions_kept :
    (hasher : Text → ℕ) (e : Engine) (command : Command) (sd : ℕ) (s : App)
    → changes_sessions command ≡ false
    → (execute hasher e command sd s).0.sessions ≡ s.sessions
unfolding execute execute_register execute_set_profile_visibility execute_friend_request
    execute_accept_friend execute_set_friend_type execute_create_post execute_chat execute_send
    execute_add execute_list_friends execute_list_friend_requests execute_list_posts execute_chats
    execute_show
execute_sessions_kept hasher e (Command.login _ _) sd s h = absurd (ground arith)
execute_sessions_kept hasher e Command.logout sd s h = absurd (ground arith)
execute_sessions_kept hasher e (Command.open_conversation _) sd s h = absurd (ground arith)
execute_sessions_kept hasher e (Command.group _) sd s h = absurd (ground arith)
execute_sessions_kept hasher e _ sd s h = ground arith

IsConsistent-later :
    (s t : App) → t.sessions ≡ s.sessions → Grows s.db t.db → IsConsistent s → IsConsistent t
IsConsistent-later s t e g v = record {
  may_use = λ sd c opened.
      let (u, found, there) = v.may_use sd c (rw e at opened) in
      (u, rw e found, g.kept (member c u) there);
}

-- During a request without database errors, whatever the command and its outcome, it stays true
-- that a socket that has a conversation open is logged in as one of its participants.
pub execute-IsConsistent :
    (hasher : Text → ℕ) (e : Engine) (command : Command) (sd : ℕ) (s : App)
    → IsReliable e
    → IsConsistent s
    → IsConsistent (execute hasher e command sd s).0
unfolding execute
execute-IsConsistent hasher e (Command.login username password) sd s r v =
    login_cases IsConsistent s v hasher e username password sd
      (λ out. IsConsistent-login s sd username out v)
execute-IsConsistent hasher e Command.logout sd s r v =
    logout_cases IsConsistent s v sd (IsConsistent-logout s sd v)
execute-IsConsistent hasher e (Command.open_conversation c) sd s r v =
    open_cases IsConsistent s v e sd c (λ within there.
      IsConsistent-open s sd c within
        (subst (λ b. b ≡ true) (is_participant-any e s.db c _ r) there) v)
execute-IsConsistent hasher e (Command.group users) sd s r v =
    let me = get_username sd s.sessions in
    let result = create_group_conversation e s.db (users ++ me ∷ []) in
    let grown = IsConsistent-db s result.0 v (
      create_group_conversation-keeps any_names (Grows s.db) (Grows-IsKept s.db) e s.db
        (users ++ me ∷ []) (All-any (users ++ me ∷ [])) (Grows-refl s.db)) in
    group_cases IsConsistent s v e sd users (λ _ _. grown)
      (λ within _ made.
        IsConsistent-open (record s { db = result.0 }) sd result.1 within
          (create_group_conversation_creator e s.db users me r made) grown)
execute-IsConsistent hasher e command sd s r v =
    IsConsistent-later s (execute hasher e command sd s).0
      (execute_sessions_kept hasher e command sd s refl) (execute-Grows hasher e command sd s) v
