-- ===== src/Access/Members.antt =====
-- AddCommand, and then OpenCommand by the user who was added.
use cpp_social_network_clien.Common.{
  eq_apart, ℕ, ℤ, negsuc, Bool, true, ◌≡◌, ◌≢◌, refl, ap, ◌∙◌, ◌++◌, Text, text, any, Has, int_eq,
  Bool-cases, inl, inr,
}
use cpp_social_network_clien.Decimal.{int_to_string}
use cpp_social_network_clien.Database.{Database, UserRow, Engine, IsReliable}
use cpp_social_network_clien.Database.Integrity.{IsValid}
use cpp_social_network_clien.Database.Messages.{member, add_participant}
use cpp_social_network_clien.Database.Queries.{
  is_participant-any, add_participant-any, insert_participant_any,
}
use cpp_social_network_clien.SessionManager.{
  is_authenticated, get_username, get_current_conversation, open_conversation,
}
use cpp_social_network_clien.App.{App}
use cpp_social_network_clien.Commands.Known.{is_known-registered}
use cpp_social_network_clien.Commands.Messaging.{execute_add, execute_open}

add_participant_succeeds :
    (e : Engine) (db : Database) (c : ℤ) (u : Text)
    → IsReliable e
    → (add_participant e db c u).1 ≡ true
unfolding add_participant
add_participant_succeeds e db c u reliable = elim (Bool-cases (any (member c u) db.participants)) [
  | inl y ↦ rw (is_participant-any e db c u reliable, y) refl
  | inr n ↦
      rw (is_participant-any e db c u reliable, n)
        (ap (λ (o : Database × Bool). o.1) (insert_participant_any e db c u reliable n))
]

execute_add_eq :
    (e : Engine) (other : UserRow) (sd : ℕ) (s : App)
    → IsReliable e
    → IsValid s.db
    → Has other s.db.users
    → is_authenticated sd s.sessions ≡ true
    → get_current_conversation sd s.sessions ≢ negsuc 0
    → execute_add e other.username sd s ≡ (
      record s {
        db = (add_participant e s.db (get_current_conversation sd s.sessions) other.username).0;
      },
      text "OK User added to group",
    )
unfolding execute_add
execute_add_eq e other sd s reliable v there within opened =
    rw
      (
        within,
        eq_apart (get_current_conversation sd s.sessions) (negsuc 0) opened,
        is_known-registered e other s.db reliable v there,
        add_participant_succeeds e s.db (get_current_conversation sd s.sessions) other.username
            reliable,
      )
      refl

-- In a database with unique keys, a client that is logged in and has a conversation open can add a
-- registered user to it, and afterwards this user, logged in on another or the same socket, can
-- open the conversation, if neither of the two commands meets a database error.
pub execute_open_after_add :
    (e later : Engine) (other : UserRow) (sd other_sd : ℕ) (s : App)
    → IsReliable e
    → IsReliable later
    → IsValid s.db
    → Has other s.db.users
    → is_authenticated sd s.sessions ≡ true
    → get_current_conversation sd s.sessions ≢ negsuc 0
    → is_authenticated other_sd s.sessions ≡ true
    → get_username other_sd s.sessions ≡ other.username
    → let after = (execute_add e other.username sd s).0 in
      let c = get_current_conversation sd s.sessions in
      execute_open later c other_sd after ≡ (
        record after { sessions = open_conversation other_sd c s.sessions },
        text "OK Opened conversation " ++ int_to_string c,
      )
unfolding execute_open
execute_open_after_add e later other sd other_sd s reliable sure v there within opened signed_in
      named =
    rw (execute_add_eq e other sd s reliable v there within opened) (
      rw
        (
          signed_in,
          named,
          is_participant-any later
                (add_participant e s.db (get_current_conversation sd s.sessions) other.username).0
                (get_current_conversation sd s.sessions) other.username sure
              ∙ add_participant-any e s.db (get_current_conversation sd s.sessions) other.username
                  reliable,
        )
        refl)
