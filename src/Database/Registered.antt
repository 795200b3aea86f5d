-- ===== src/Database/Registered.antt =====
-- server/Database.cpp, `initDatabase`: the columns that REFERENCES users(username).
pub mod Found
use cpp_social_network_clien.Common.{
  suc, ℤ, pos, Bool, true, false, not, ◌&&◌, ◌||◌, ◌≡◌, refl, ◌∙◌, some, List, [], ◌∷◌, ◌++◌, map,
  Text, arith, any, all, all-append, all-map, all_mono, any-Has, Has-any, any_mono, text_beq_iff,
  ◌==◌, text_eq, nat_eq, int_eq, subst,
}
use cpp_social_network_clien.Database.{
  Database, FriendRow, PostRow, ParticipantRow, MessageRow, Sql, insert_user,
  update_profile_visibility, insert_request, update_status, insert_reverse, update_friend_type,
  insert_post, insert_participant, insert_message, perform, insert_friend, new_friend, new_post,
  new_participant, new_message, set_status, set_type, between, init_database,
}
use cpp_social_network_clien.Database.Keeps.{Names, IsAdmitted, IsKept}
use cpp_social_network_clien.Database.Lasting.{Lasts}

-- A row of the table of users has the name.
abbrev pub registered : Database → Text → Bool
registered db username = any (λ r. r.username == username) db.users

-- Whether a row refers to names that are some of `known`.
abbrev pub friend_refers : (Text → Bool) → FriendRow → Bool
friend_refers known r = known r.user_username && known r.friend_username

abbrev pub post_refers : (Text → Bool) → PostRow → Bool
post_refers known r = known r.author_username

abbrev pub participant_refers : (Text → Bool) → ParticipantRow → Bool
participant_refers known r = known r.username

abbrev pub message_refers : (Text → Bool) → MessageRow → Bool
message_refers known r = known r.sender_username

pub record Refers (known : Text → Bool) (db : Database) : Type 0 where
  pub friends : all (friend_refers known) db.friends ≡ true
  pub posts : all (post_refers known) db.posts ≡ true
  pub participants : all (participant_refers known) db.participants ≡ true
  pub messages : all (message_refers known) db.messages ≡ true

-- Every name in the other tables is the name of a user.
abbrev pub IsReferential : Database → Type 0
IsReferential db = Refers (registered db) db

pub init_database-IsReferential : IsReferential init_database
unfolding all
init_database-IsReferential = record {
  friends = refl;
  posts = refl;
  participants = refl;
  messages = refl;
}

pub Refers-mono :
    (p q : Text → Bool) (db : Database)
    → ((u : Text) → p u ≡ true → q u ≡ true)
    → Refers p db
    → Refers q db
Refers-mono p q db k v = record {
  friends =
      all_mono (friend_refers p) (friend_refers q) db.friends
        (λ r h. ground (arith, k r.user_username, k r.friend_username)) v.friends;
  posts = all_mono (post_refers p) (post_refers q) db.posts (λ r h. k r.author_username h) v.posts;
  participants =
      all_mono (participant_refers p) (participant_refers q) db.participants (λ r h. k r.username h)
        v.participants;
  messages =
      all_mono (message_refers p) (message_refers q) db.messages (λ r h. k r.sender_username h)
        v.messages;
}

-- An account that lasts is registered still.
pub registered-Lasts :
    (before after : Database) (u : Text)
    → Lasts before after
    → registered before u ≡ true
    → registered after u ≡ true
registered-Lasts before after u lasts h =
    let (r, there, same) = any-Has (λ r. r.username == u) before.users h in
    any_mono (λ s. s.username == u && s.password == r.password) (λ s. s.username == u) after.users
      (λ s k. ground arith)
      (lasts.accounts u r.password (
        Has-any (λ s. s.username == u && s.password == r.password) r before.users there
          (ground (arith, (text_beq_iff r.password r.password).1 refl))))

abbrev pub known_names : (Text → Bool) → Names
known_names known = record { new = λ _. Unit {0}; user = λ u. known u ≡ true }

all-snoc :
    {A : Type 0} (p : A → Bool) (xs : List A) (a : A)
    → all p xs ≡ true
    → p a ≡ true
    → all p (xs ++ a ∷ []) ≡ true
all-snoc p xs a h k = all-append p xs (a ∷ []) ∙ rw h (unfold all in rw k refl)

all-map_kept :
    {A : Type 0} (p : A → Bool) (f : A → A) (xs : List A)
    → ((x : A) → p x ≡ true → p (f x) ≡ true)
    → all p xs ≡ true
    → all p (map f xs) ≡ true
all-map_kept p f xs k h = all-map f p xs ∙ all_mono p (λ x. p (f x)) xs k h

module _ (known : Text → Bool) (db after : Database) (v : Refers known db) where
  Refers-friends :
      all (friend_refers known) after.friends ≡ true
      → after.posts ≡ db.posts
      → after.participants ≡ db.participants
      → after.messages ≡ db.messages
      → Refers known after
  Refers-friends h p c m = record {
    friends = h;
    posts = rw p v.posts;
    participants = rw c v.participants;
    messages = rw m v.messages;
  }

  insert_friend-Refers :
      (user friend : Text) (status : ℤ)
      → (known user ≡ true) × (known friend ≡ true)
      → insert_friend user friend status db ≡ some after
      → Refers known after
  unfolding insert_friend
  insert_friend-Refers user friend status h e =
      let grown : after.friends ≡ db.friends ++ new_friend user friend status ∷ [] = ground arith in
      Refers-friends
        (rw grown (all-snoc (friend_refers known) db.friends _ v.friends (ground arith)))
        (ground arith) (ground arith) (ground arith)

-- Every statement whose names are known keeps all names known.
pub perform-Refers : (known : Text → Bool) → IsKept (known_names known) (Refers known)
unfolding perform
perform-Refers known now (insert_request user friend) db after a v e =
    insert_friend-Refers known db after v user friend (pos 0) a e
perform-Refers known now (insert_reverse user friend) db after a v e =
    insert_friend-Refers known db after v user friend (pos 1) a e
perform-Refers known now (update_status user friend) db after a v e =
    let mapped : after.friends ≡ map (set_status user friend) db.friends = ground arith in
    Refers-friends known db after v
      (rw mapped (all-map_kept (friend_refers known) _ db.friends (λ r h. ground arith) v.friends))
      (ground arith) (ground arith) (ground arith)
perform-Refers known now (update_friend_type type user friend) db after a v e =
    let mapped : after.friends ≡ map (set_type type user friend) db.friends = ground arith in
    Refers-friends known db after v
      (rw mapped (all-map_kept (friend_refers known) _ db.friends (λ r h. ground arith) v.friends))
      (ground arith) (ground arith) (ground arith)
perform-Refers known now (insert_post author content visibility) db after a v e =
    let grown : after.posts
        ≡ db.posts ++ new_post (suc db.post_seq) author content visibility now ∷ [] =
      ground arith in
    record {
      friends = subst (λ t. all (friend_refers known) t ≡ true) (ground arith) v.friends;
      posts = rw grown (all-snoc (post_refers known) db.posts _ v.posts a.0);
      participants =
          subst (λ t. all (participant_refers known) t ≡ true) (ground arith) v.participants;
      messages = subst (λ t. all (message_refers known) t ≡ true) (ground arith) v.messages;
    }
perform-Refers known now (insert_participant c username) db after a v e =
    let grown : after.participants ≡ db.participants ++ new_participant c username now ∷ [] =
      ground arith in
    record {
      friends = subst (λ t. all (friend_refers known) t ≡ true) (ground arith) v.friends;
      posts = subst (λ t. all (post_refers known) t ≡ true) (ground arith) v.posts;
      participants =
          rw grown (all-snoc (participant_refers known) db.participants _ v.participants a);
      messages = subst (λ t. all (message_refers known) t ≡ true) (ground arith) v.messages;
    }
perform-Refers known now (insert_message c sender content) db after a v e =
    let grown : after.messages
        ≡ db.messages ++ new_message (suc db.message_seq) c sender content now ∷ [] =
      ground arith in
    record {
      friends = subst (λ t. all (friend_refers known) t ≡ true) (ground arith) v.friends;
      posts = subst (λ t. all (post_refers known) t ≡ true) (ground arith) v.posts;
      participants =
          subst (λ t. all (participant_refers known) t ≡ true) (ground arith) v.participants;
      messages = rw grown (all-snoc (message_refers known) db.messages _ v.messages a);
    }
perform-Refers known now _ db after a v e =
    Refers-friends known db after v
      (subst (λ t. all (friend_refers known) t ≡ true) (ground arith) v.friends) (ground arith)
      (ground arith) (ground arith)
