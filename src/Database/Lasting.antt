-- ===== src/Database/Lasting.antt =====
-- server/Database.cpp: accounts and friendships over time.
use cpp_social_network_clien.Common.{
  suc, pos, Bool, true, ◌&&◌, ◌≡◌, ◌∙◌, some, List, [], ◌∷◌, ◌++◌, map, Text, arith, any,
  any-append_left, any-map, any_mono, ◌==◌, text_eq, int_eq, nat_eq,
}
use cpp_social_network_clien.Database.{
  Database, FriendRow, Sql, insert_user, update_profile_visibility, insert_request, update_status,
  insert_reverse, update_friend_type, perform, between, accepted, set_status, set_type,
  set_visibility, new_user, new_friend,
}
use cpp_social_network_clien.Database.Keeps.{any_names, IsKept}

abbrev pub has_account : Database → Text → Text → Bool
has_account db username hash = any (λ r. r.username == username && r.password == hash) db.users

abbrev pub has_friend : Database → Text → Text → Bool
has_friend db a b = any (λ r. between a b r && accepted r) db.friends

-- Whoever had an account with some password, or a friend, still does.
pub record Lasts (before after : Database) : Type 0 where
  pub accounts :
      (username hash : Text)
      → has_account before username hash ≡ true
      → has_account after username hash ≡ true
  pub friendships : (a b : Text) → has_friend before a b ≡ true → has_friend after a b ≡ true

pub Lasts-refl : (db : Database) → Lasts db db
Lasts-refl db = record { accounts = λ u p h. h; friendships = λ a b h. h }

Lasts-trans : {a b c : Database} → Lasts a b → Lasts b c → Lasts a c
Lasts-trans g h = record {
  accounts = λ u p k. h.accounts u p (g.accounts u p k);
  friendships = λ a b k. h.friendships a b (g.friendships a b k);
}

any-map_kept :
    {A : Type 0} (f : A → A) (p : A → Bool) (xs : List A)
    → ((x : A) → p x ≡ true → p (f x) ≡ true)
    → any p xs ≡ true
    → any p (map f xs) ≡ true
any-map_kept f p xs k h = any-map f p xs ∙ any_mono p (λ x. p (f x)) xs k h

module _ (db after : Database) where
  Lasts-of_users :
      after.friends ≡ db.friends
      → ((username hash : Text)
          → has_account db username hash ≡ true
          → has_account after username hash ≡ true)
      → Lasts db after
  Lasts-of_users same h = record { accounts = h; friendships = λ a b k. rw same k }

  Lasts-of_friends :
      after.users ≡ db.users
      → ((a b : Text) → has_friend db a b ≡ true → has_friend after a b ≡ true)
      → Lasts db after
  Lasts-of_friends same h = record { accounts = λ u p k. rw same k; friendships = h }

insert_friend-Lasts :
    (db after : Database) (new : List FriendRow)
    → after.users ≡ db.users
    → after.friends ≡ db.friends ++ new
    → Lasts db after
insert_friend-Lasts db after new same grown =
    Lasts-of_friends db after same (λ a b k. rw grown (any-append_left _ db.friends new k))

perform-Lasts :
    (now : Text) (q : Sql) (db after : Database) → perform now q db ≡ some after → Lasts db after
unfolding perform
perform-Lasts now (insert_user username password email user_type) db after e =
    let grown : after.users
        ≡ db.users ++ new_user (suc db.user_seq) username password email user_type ∷ [] =
      ground arith in
    Lasts-of_users db after (ground arith) (λ u p k. rw grown (any-append_left _ db.users _ k))
perform-Lasts now (update_profile_visibility visibility user_id) db after e =
    let mapped : after.users ≡ map (set_visibility visibility user_id) db.users = ground arith in
    Lasts-of_users db after (ground arith)
      (λ u p k. rw mapped (any-map_kept _ _ db.users (λ r h. ground arith) k))
perform-Lasts now (insert_request user friend) db after e =
    insert_friend-Lasts db after (new_friend user friend (pos 0) ∷ []) (ground arith) (ground arith)
perform-Lasts now (update_status user friend) db after e =
    let mapped : after.friends ≡ map (set_status user friend) db.friends = ground arith in
    Lasts-of_friends db after (ground arith)
      (λ a b k. rw mapped (any-map_kept _ _ db.friends (λ r h. ground arith) k))
perform-Lasts now (insert_reverse user friend) db after e =
    insert_friend-Lasts db after (new_friend user friend (pos 1) ∷ []) (ground arith) (ground arith)
perform-Lasts now (update_friend_type type user friend) db after e =
    let mapped : after.friends ≡ map (set_type type user friend) db.friends = ground arith in
    Lasts-of_friends db after (ground arith)
      (λ a b k. rw mapped (any-map_kept _ _ db.friends (λ r h. ground arith) k))
perform-Lasts now _ db after e = record {
  accounts = λ u p k. ground arith;
  friendships = λ a b k. ground arith;
}

-- From a fixed database on, accounts and friendships last.
pub Lasts-IsKept : (db : Database) → IsKept any_names (Lasts db)
Lasts-IsKept db now q before after a g e = Lasts-trans g (perform-Lasts now q before after e)
