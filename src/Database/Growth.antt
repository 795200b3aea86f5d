-- ===== src/Database/Growth.antt =====
-- server/Database.cpp: participants, messages and posts over time.
use mathlib.Core.List.{append-nil}
use cpp_social_network_clien.Common.{
  suc, Bool, true, ◌≡◌, some, List, [], ◌∷◌, Text, arith, any, any-append_left, ◌++◌,
}
use cpp_social_network_clien.Database.{
  Database, ParticipantRow, MessageRow, PostRow, new_message, new_post, Sql, perform,
  new_participant, insert_request, insert_reverse, insert_post, insert_participant, insert_message,
}
use cpp_social_network_clien.Database.Keeps.{any_names, IsKept}

-- Every participant, message and post that was in the tables still is.
pub record Grows (before after : Database) : Type 0 where
  pub kept :
      (p : ParticipantRow → Bool)
      → any p before.participants ≡ true
      → any p after.participants ≡ true
  pub kept_messages :
      (p : MessageRow → Bool) → any p before.messages ≡ true → any p after.messages ≡ true
  pub kept_posts : (p : PostRow → Bool) → any p before.posts ≡ true → any p after.posts ≡ true

pub Grows-refl : (db : Database) → Grows db db
Grows-refl db = record { kept = λ p h. h; kept_messages = λ p h. h; kept_posts = λ p h. h }

pub Grows-trans : {a b c : Database} → Grows a b → Grows b c → Grows a c
Grows-trans g h = record {
  kept = λ p k. h.kept p (g.kept p k);
  kept_messages = λ p k. h.kept_messages p (g.kept_messages p k);
  kept_posts = λ p k. h.kept_posts p (g.kept_posts p k);
}

Grows-append :
    (db after : Database) (participants : List ParticipantRow) (messages : List MessageRow)
    (posts : List PostRow)
    → after.participants ≡ db.participants ++ participants
    → after.messages ≡ db.messages ++ messages
    → after.posts ≡ db.posts ++ posts
    → Grows db after
Grows-append db after participants messages posts a b c = record {
  kept = λ p h. rw a (any-append_left p db.participants participants h);
  kept_messages = λ p h. rw b (any-append_left p db.messages messages h);
  kept_posts = λ p h. rw c (any-append_left p db.posts posts h);
}

Grows-of_eq :
    {db after : Database}
    → after.participants ≡ db.participants
    → after.messages ≡ db.messages
    → after.posts ≡ db.posts
    → Grows db after
Grows-of_eq a b c = record {
  kept = λ p h. rw a h;
  kept_messages = λ p h. rw b h;
  kept_posts = λ p h. rw c h;
}

perform-Grows :
    (now : Text) (q : Sql) (db after : Database) → perform now q db ≡ some after → Grows db after
unfolding perform
perform-Grows now (insert_participant c u) db after e =
    Grows-append db after (new_participant c u now ∷ []) [] [] (ground arith)
      (rw append-nil (ground arith)) (rw append-nil (ground arith))
perform-Grows now (insert_message c sender content) db after e =
    Grows-append db after [] (new_message (suc db.message_seq) c sender content now ∷ []) []
      (rw append-nil (ground arith)) (ground arith) (rw append-nil (ground arith))
perform-Grows now (insert_post author content visibility) db after e =
    Grows-append db after [] [] (new_post (suc db.post_seq) author content visibility now ∷ [])
      (rw append-nil (ground arith)) (rw append-nil (ground arith)) (ground arith)
perform-Grows now (insert_request a b) db after e =
    Grows-of_eq (ground arith) (ground arith) (ground arith)
perform-Grows now (insert_reverse a b) db after e =
    Grows-of_eq (ground arith) (ground arith) (ground arith)
perform-Grows now _ db after e = Grows-of_eq (ground arith) (ground arith) (ground arith)

-- From a fixed database on, statements only add.
pub Grows-IsKept : (db : Database) → IsKept any_names (Grows db)
Grows-IsKept db now q before after a g e = Grows-trans g (perform-Grows now q before after e)
