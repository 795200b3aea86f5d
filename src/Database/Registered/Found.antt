-- ===== src/Database/Registered/Found.antt =====
-- server/Database.cpp: a name that a query finds is one of the names in the tables.
use cpp_social_network_clien.Common.{
  ◌≡◌, refl, Bool, true, false, ◌&&◌, List, [], ◌∷◌, Text, arith, any, all, Has, any-Has, ◌==◌,
  text_eq, text_beq_iff, int_eq, subst, Bool-cases, inl, inr, select, ℕ,
}
use cpp_social_network_clien.Database.{
  Database, Sql, Engine, IsSound, select_user, check_request, query, between, pending,
}
use cpp_social_network_clien.Database.Queries.{query-all}
use cpp_social_network_clien.Database.Users.{user_row, get_user_by_username, authenticate_user}
use cpp_social_network_clien.Database.Friends.{has_request}
use cpp_social_network_clien.Database.Registered.{registered, Refers, friend_refers}
use cpp_social_network_clien.SessionManager.{is_some}

all-Has :
    {A : Type 0} (p : A → Bool) (xs : List A) (a : A) → all p xs ≡ true → Has a xs → p a ≡ true
unfolding all
all-Has p [] a h k = absurd k
all-Has p (x ∷ xs) a h (inl e) = ground arith
all-Has p (x ∷ xs) a h (inr k) = all-Has p xs a (ground arith) k

select-none : {A : Type 0} (p : A → Bool) (xs : List A) → any p xs ≡ false → select p xs ≡ []
unfolding select any
select-none p [] h = refl
select-none p (x ∷ xs) h = ground (arith, select-none p xs)

nothing : {A : Type 0} (xs : List A) → all (λ _. false) xs ≡ true → xs ≡ []
unfolding all
nothing [] h = refl
nothing (x ∷ xs) h = absurd (ground arith)

module _ (e : Engine) (db : Database) (sound : IsSound e) where
  -- Nothing is delivered where nothing is selected.
  query-none :
      {A : Type 0} (q : Sql) (p : A → Bool) (xs : List A)
      → any p xs ≡ false
      → query e q db (select p xs) ≡ []
  query-none q p xs h = nothing (query e q db (select p xs)) (
      query-all e q db (λ _. false) (select p xs) sound
        (rw (select-none p xs h) (unfold all in refl)))

  found_user :
      (u : Text) → is_some (user_row e db u) ≡ true → any (λ r. r.username == u) db.users ≡ true
  unfolding user_row
  found_user u h = elim (Bool-cases (any (λ r. r.username == u) db.users)) [
    | inl y ↦ y
    | inr n ↦ absurd (ground (arith, query-none (select_user u) (λ r. r.username == u) db.users n))
  ]

  pub get_user_by_username-registered :
      (u : Text) → is_some (get_user_by_username e db u) ≡ true → registered db u ≡ true
  get_user_by_username-registered u h = found_user u (unfold get_user_by_username in ground arith)

  pub authenticate_user-registered :
      (hasher : Text → ℕ) (u p : Text)
      → is_some (authenticate_user hasher e db u p) ≡ true
      → registered db u ≡ true
  authenticate_user-registered hasher u p h =
      found_user u (unfold authenticate_user in ground arith)

  found_request :
      (from to : Text)
      → has_request e db from to ≡ true
      → any (λ r. between from to r && pending r) db.friends ≡ true
  unfolding has_request
  found_request from to h =
      elim (Bool-cases (any (λ r. between from to r && pending r) db.friends)) [
        | inl y ↦ y
        | inr n ↦ absurd (
            ground (
              arith,
              query-none (check_request from to) (λ r. between from to r && pending r) db.friends n,
            ))
      ]

  pub has_request-Refers :
      (known : Text → Bool) (from to : Text)
      → Refers known db
      → has_request e db from to ≡ true
      → (known from ≡ true) × (known to ≡ true)
  has_request-Refers known from to v h =
      let (r, there, same) =
        any-Has (λ r. between from to r && pending r) db.friends (found_request from to h) in
      let knows : friend_refers known r ≡ true =
        all-Has (friend_refers known) db.friends r v.friends there in
      (
        subst (λ u. known u ≡ true) ((text_beq_iff r.user_username from).0 (ground arith))
            (ground arith),
        subst (λ u. known u ≡ true) ((text_beq_iff r.friend_username to).0 (ground arith))
            (ground arith),
      )
