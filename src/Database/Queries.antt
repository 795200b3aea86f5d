-- ===== src/Database/Queries.antt =====
-- What the queries of server/Database.cpp answer: the soundness and completeness of `query`, and
-- the tests that ask whether there is a row.
use cpp_social_network_clien.Common.{
  ℤ, Bool, true, false, not, ◌&&◌, ◌≡◌, ◌∙◌, none, some, List, [], ◌∷◌, ◌++◌, Text, arith, any, all,
  select, any-select, not-is_empty, is_empty, any_congr, any-append, any-false-all, all-not-any,
  Bool-cases, inl, inr, text_eq, int_eq, eq_refl,
}
use cpp_social_network_clien.Database.{
  Database, Sql, Engine, IsSound, IsReliable, perform, exec, query, check_participant,
  insert_participant, check_friends, check_request, new_participant, between, accepted, pending,
}
use cpp_social_network_clien.Database.Friends.{are_friends, has_request}
use cpp_social_network_clien.Database.Messages.{is_participant, add_participant, member}

module _ (e : Engine) where
  pub query-all :
      {A : Type 0} (q : Sql) (db : Database) (p : A → Bool) (rows : List A)
      → IsSound e
      → all p rows ≡ true
      → all p (query e q db rows) ≡ true
  unfolding query all
  query-all {A} q db p rows s h = elim (Bool-cases (e.prepares q db)) [
    | inl y ↦ rw y (s.deliver_all A q db p rows h)
    | inr n ↦ rw n
  ]

  pub any-query :
      {A : Type 0} (q : Sql) (db : Database) (p : A → Bool) (rows : List A)
      → IsReliable e
      → any p (query e q db rows) ≡ any p rows
  unfolding query
  any-query {A} q db p rows r = rw (r.prepared q db) (elim (Bool-cases (any p rows)) [
    | inl y ↦ rw y (r.deliver_any A q db p rows y)
    | inr n ↦ rw n (
        all-not-any p _ (r.sound.deliver_all A q db (λ x. not (p x)) rows (any-false-all p rows n)))
  ])

  -- sqlite3_step == SQLITE_ROW, when no statement fails.
  found-any :
      {A : Type 0} (q : Sql) (db : Database) (p : A → Bool) (rows : List A)
      → IsReliable e
      → not (is_empty (query e q db (select p rows))) ≡ any p rows
  found-any q db p rows r =
      not-is_empty (query e q db (select p rows))
      ∙ any-query q db (λ _. true) (select p rows) r
      ∙ any-select (λ _. true) p rows
      ∙ any_congr _ p rows (λ x. ground arith)

  pub is_participant-any :
      (db : Database) (c : ℤ) (u : Text)
      → IsReliable e
      → is_participant e db c u ≡ any (member c u) db.participants
  unfolding is_participant
  is_participant-any db c u = found-any (check_participant c u) db (member c u) db.participants

  pub are_friends-any :
      (db : Database) (a b : Text)
      → IsReliable e
      → are_friends e db a b ≡ any (λ r. between a b r && accepted r) db.friends
  unfolding are_friends
  are_friends-any db a b = found-any (check_friends a b) db _ db.friends

  pub has_request-any :
      (db : Database) (a b : Text)
      → IsReliable e
      → has_request e db a b ≡ any (λ r. between a b r && pending r) db.friends
  unfolding has_request
  has_request-any db a b = found-any (check_request a b) db _ db.friends

  pub exec_reliable :
      (q : Sql) (db after : Database)
      → IsReliable e
      → perform e.now q db ≡ some after
      → exec e q db ≡ (after, true)
  unfolding exec
  exec_reliable q db after r h = rw (r.prepared q db, r.stepped q db, h)

  pub exec_refused :
      (q : Sql) (db : Database) → perform e.now q db ≡ none → exec e q db ≡ (db, false)
  unfolding exec
  exec_refused q db h = ground (arith)

  pub insert_participant_any :
      (db : Database) (c : ℤ) (u : Text)
      → IsReliable e
      → any (member c u) db.participants ≡ false
      → exec e (insert_participant c u) db
        ≡ (record db { participants = db.participants ++ new_participant c u e.now ∷ [] }, true)
  insert_participant_any db c u r n =
      exec_reliable (insert_participant c u) db _ r (unfold perform in rw n)

  -- A user that was added to a conversation is in it.
  pub add_participant-any :
      (db : Database) (c : ℤ) (u : Text)
      → IsReliable e
      → any (member c u) (add_participant e db c u).0.participants ≡ true
  unfolding add_participant
  add_participant-any db c u r = elim (Bool-cases (any (member c u) db.participants)) [
    | inl y ↦ rw (is_participant-any db c u r, y) y
    | inr n ↦
        rw
          (
            is_participant-any db c u r,
            n,
            insert_participant_any db c u r n,
            any-append (member c u) db.participants,
          )
          (unfold any in rw (n, eq_refl c, eq_refl u))
  ]
