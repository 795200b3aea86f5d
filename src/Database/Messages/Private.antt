-- ===== src/Database/Messages/Private.antt =====
-- server/Database.cpp, `getPrivateConversation`: HAVING COUNT(*) = 2 counts the joined rows of a
-- conversation, of which the WHERE clause keeps those of the two users.
use cpp_social_network_clien.Common.{
  ℕ, ◌+◌, ◌*◌, ◌≤◌, ℤ, Bool, false, ◌≡◌, refl, ◌∙◌, none, List, [], ◌∷◌, ◌++◌, Text, arith, all,
  count, first_of_none, count-distinct, ◌==◌, nat_eq, int_eq, text_eq, int_beq_iff, text_beq_iff,
  if◌then◌else◌,
}
use cpp_social_network_clien.Database.{
  Database, ParticipantRow, Engine, IsSound, select_private_conversation,
}
use cpp_social_network_clien.Database.Integrity.{IsValid, same_participant}
use cpp_social_network_clien.Database.Queries.{query-all}
use cpp_social_network_clien.Database.Messages.{
  member, join_with, join, groups_of_size, get_private_conversation,
}

abbrev is_conversation : ℤ → ℤ → Bool
is_conversation c d = d == c

count-append : (p : ℤ → Bool) (xs ys : List ℤ) → count p (xs ++ ys) ≡ count p xs + count p ys
unfolding count
count-append p [] ys = omega arith
count-append p (x ∷ xs) ys = omega (arith, count-append p xs ys)

mul-le-one : (a b : ℕ) → a ≤ 1 → b ≤ 1 → a * b ≤ 1
mul-le-one a b h k = grind arith

not_two : (n : ℕ) → n ≤ 1 → (n == 2) ≡ false
not_two n h = ground arith

count-member :
    (c : ℤ) (user : Text) (db : Database) → IsValid db → count (member c user) db.participants ≤ 1
count-member c user db v =
    count-distinct same_participant (member c user) db.participants
      (λ r s h k. ground (
        arith,
        int_beq_iff r.conversation_id c,
        int_beq_iff s.conversation_id c,
        int_beq_iff r.conversation_id s.conversation_id,
        text_beq_iff r.username user,
        text_beq_iff s.username user,
        text_beq_iff r.username s.username,
      ))
      v.members

module _ (user1 user2 : Text) (c : ℤ) where
  count-join_with :
      (cp1 : ParticipantRow) (table : List ParticipantRow)
      → count (is_conversation c) (join_with user1 user2 cp1 table)
        ≡ (if member c user1 cp1 then 1 else 0) * count (member c user2) table
  unfolding count join_with
  count-join_with cp1 [] = ground arith
  count-join_with cp1 (cp2 ∷ table) = ground (
    arith,
    count-join_with cp1 table,
    int_beq_iff cp1.conversation_id cp2.conversation_id,
    int_beq_iff cp1.conversation_id c,
    int_beq_iff cp2.conversation_id c,
  )

  count-join :
      (rows table : List ParticipantRow)
      → count (is_conversation c) (join user1 user2 rows table)
        ≡ count (member c user1) rows * count (member c user2) table
  unfolding count join
  count-join [] table = omega arith
  count-join (cp1 ∷ rows) table =
      count-append (is_conversation c) (join_with user1 user2 cp1 table)
        (join user1 user2 rows table)
      ∙ omega (arith, count-join_with cp1 table, count-join rows table)

groups_of_size_none :
    (n : ℕ) (joined rest : List ℤ)
    → ((c : ℤ) → (count (is_conversation c) joined == n) ≡ false)
    → groups_of_size n joined rest ≡ []
unfolding groups_of_size
groups_of_size_none n joined [] h = refl
groups_of_size_none n joined (c ∷ rest) h = ground (arith, h c, groups_of_size_none n joined rest h)

-- In a database with unique keys, if SQLite delivers only rows that were selected, the search for
-- a private conversation of two users finds none, however many conversations they share.
pub get_private_conversation-none :
    (e : Engine) (db : Database) (user1 user2 : Text)
    → IsSound e
    → IsValid db
    → get_private_conversation e db user1 user2 ≡ none
unfolding get_private_conversation
get_private_conversation-none e db user1 user2 s v =
    let joined = join user1 user2 db.participants db.participants in
    let no_group : groups_of_size 2 joined joined ≡ [] = groups_of_size_none 2 joined joined (λ c.
      not_two _ (
        rw (count-join user1 user2 c db.participants db.participants)
          (mul-le-one _ _ (count-member c user1 db v) (count-member c user2 db v)))) in
    rw no_group (
      first_of_none _ (
        query-all e (select_private_conversation user1 user2) db (λ _. false) [] s
          (unfold all in refl)))
