-- ===== src/Database/Numbered.antt =====
-- server/Database.cpp, `initDatabase`: the INTEGER PRIMARY KEY AUTOINCREMENT columns of the posts, the
-- conversations and the messages.
use cpp_social_network_clien.Common.{
  ℕ, suc, Bool, true, false, ◌&&◌, ◌≡◌, refl, some, List, [], ◌∷◌, ◌++◌, Text, arith, any, all,
  distinct, distinct-snoc, leb, ◌==◌, nat_eq, subst,
}
use cpp_social_network_clien.Database.{
  Database, PostRow, ConversationRow, MessageRow, Sql, insert_post, insert_message,
  insert_conversation, perform, insert_friend, new_post, new_message,
}
use cpp_social_network_clien.Database.Integrity.{IsValid, perform-IsValid}

-- The keys of the rows are different, and none is above the last one that was given out.
abbrev pub numbered : {A : Type 0} → (A → ℕ) → ℕ → List A → Bool
numbered key seq rows = distinct (λ r s. key r == key s) rows && all (λ r. leb (key r) seq) rows

module _ {A : Type 0} (key : A → ℕ) where
  key_fresh :
      (seq : ℕ) (rows : List A)
      → all (λ r. leb (key r) seq) rows ≡ true
      → any (λ r. key r == suc seq) rows ≡ false
  unfolding all any
  key_fresh seq [] h = refl
  key_fresh seq (r ∷ rows) h = ground (arith, key_fresh seq rows)

  keys-snoc :
      (seq : ℕ) (rows : List A) (r : A)
      → all (λ r. leb (key r) seq) rows ≡ true
      → key r ≡ suc seq
      → all (λ r. leb (key r) (suc seq)) (rows ++ r ∷ []) ≡ true
  unfolding all
  keys-snoc seq [] r h e = ground arith
  keys-snoc seq (s ∷ rows) r h e = ground (arith, keys-snoc seq rows r)

  numbered-snoc :
      (seq : ℕ) (rows : List A) (r : A)
      → numbered key seq rows ≡ true
      → key r ≡ suc seq
      → numbered key (suc seq) (rows ++ r ∷ []) ≡ true
  numbered-snoc seq rows r h e =
      let fresh : any (λ s. key s == key r) rows ≡ false =
        rw e (key_fresh seq rows (ground arith)) in
      let apart : distinct (λ r s. key r == key s) (rows ++ r ∷ []) ≡ true =
        distinct-snoc (λ r s. key r == key s) rows r (ground arith) fresh in
      let below : all (λ r. leb (key r) (suc seq)) (rows ++ r ∷ []) ≡ true =
        keys-snoc seq rows r (ground arith) e in
      ground arith

pub record IsNumbered (db : Database) : Type 0 where
  pub posts : numbered (λ (r : PostRow). r.post_id) db.post_seq db.posts ≡ true
  pub conversations :
      numbered (λ (r : ConversationRow). r.conversation_id) db.conversation_seq db.conversations
      ≡ true
  pub messages : numbered (λ (r : MessageRow). r.message_id) db.message_seq db.messages ≡ true

-- Every key of the schema.
pub record IsKeyed (db : Database) : Type 0 where
  pub valid : IsValid db
  pub numbers : IsNumbered db

-- A statement that touches none of these tables.
others-IsNumbered :
    (db after : Database)
    → IsNumbered db
    → after.posts ≡ db.posts
    → after.post_seq ≡ db.post_seq
    → after.conversations ≡ db.conversations
    → after.conversation_seq ≡ db.conversation_seq
    → after.messages ≡ db.messages
    → after.message_seq ≡ db.message_seq
    → IsNumbered after
others-IsNumbered db after v a b c d f g = record {
  posts = rw (a, b) v.posts;
  conversations = rw (c, d) v.conversations;
  messages = rw (f, g) v.messages;
}

perform-IsNumbered :
    (now : Text) (q : Sql) (db after : Database)
    → IsNumbered db
    → perform now q db ≡ some after
    → IsNumbered after
unfolding perform insert_friend
perform-IsNumbered now (insert_post author content visibility) db after v e =
    subst IsNumbered (ground arith) (the_post)
  where
    the_post : IsNumbered (record db {
      posts = db.posts ++ new_post (suc db.post_seq) author content visibility now ∷ [];
      post_seq = suc db.post_seq;
    })
    the_post = record {
      posts = numbered-snoc (λ r. r.post_id) db.post_seq db.posts _ v.posts refl;
      conversations = v.conversations;
      messages = v.messages;
    }
perform-IsNumbered now (insert_message c sender content) db after v e =
    subst IsNumbered (ground arith) (the_message)
  where
    the_message : IsNumbered (record db {
      messages = db.messages ++ new_message (suc db.message_seq) c sender content now ∷ [];
      message_seq = suc db.message_seq;
    })
    the_message = record {
      posts = v.posts;
      conversations = v.conversations;
      messages = numbered-snoc (λ r. r.message_id) db.message_seq db.messages _ v.messages refl;
    }
perform-IsNumbered now insert_conversation db after v e =
    subst IsNumbered (ground arith) (the_conversation)
  where
    the_conversation : IsNumbered (record db {
      conversations =
          db.conversations
          ++ record { conversation_id = suc db.conversation_seq; created_at = now } ∷ [];
      conversation_seq = suc db.conversation_seq;
    })
    the_conversation = record {
      posts = v.posts;
      conversations =
          numbered-snoc (λ r. r.conversation_id) db.conversation_seq db.conversations _
            v.conversations refl;
      messages = v.messages;
    }
perform-IsNumbered now _ db after v e =
    others-IsNumbered db after v (ground arith) (ground arith) (ground arith) (ground arith)
      (ground arith) (ground arith)

pub perform-IsKeyed :
    (now : Text) (q : Sql) (db after : Database)
    → IsKeyed db
    → perform now q db ≡ some after
    → IsKeyed after
perform-IsKeyed now q db after v e = record {
  valid = perform-IsValid now q db after v.valid e;
  numbers = perform-IsNumbered now q db after v.numbers e;
}
