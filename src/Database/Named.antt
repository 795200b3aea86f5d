-- ===== src/Database/Named.antt =====
-- server/Database.cpp: the names of the users, which are words of the protocol.
use cpp_social_network_clien.Common.{
  suc, true, ◌≡◌, List, [], ◌∷◌, ◌++◌, map, Text, arith, any, All, ◌==◌, text_eq, text_beq_iff,
  nat_eq, int_eq, subst, Bool-cases, inl, inr,
}
use cpp_social_network_clien.Stream.Words.{IsWord}
use cpp_social_network_clien.Database.{
  Database, UserRow, insert_user, update_profile_visibility, insert_request, insert_reverse,
  perform, insert_friend, new_user, set_visibility,
}
use cpp_social_network_clien.Database.Registered.{registered}
use cpp_social_network_clien.Database.Keeps.{Names, IsKept}

abbrev pub HasWord : UserRow → Type 0
HasWord r = IsWord r.username

-- The names of all users are words.
abbrev pub IsNamed : Database → Type 0
IsNamed db = All HasWord db.users

-- A new name that is a word, and any name of a user.
abbrev pub new_words : Names
new_words = record { new = IsWord; user = λ _. Unit {0} }

All-snoc :
    {A : Type 0} (P : A → Type 0) (xs : List A) (a : A) → All P xs → P a → All P (xs ++ a ∷ [])
All-snoc P [] a h k = (k, tt)
All-snoc P (x ∷ xs) a h k = (h.0, All-snoc P xs a h.1 k)

All-map_kept :
    {A : Type 0} (P : A → Type 0) (f : A → A) (xs : List A)
    → ((x : A) → P x → P (f x))
    → All P xs
    → All P (map f xs)
All-map_kept P f [] k h = tt
All-map_kept P f (x ∷ xs) k h = (k x h.0, All-map_kept P f xs k h.1)

-- Every statement whose new name, if there is one, is a word keeps the names words.
pub perform-IsNamed : IsKept new_words IsNamed
unfolding perform
perform-IsNamed now (insert_user username password email user_type) db after a v e =
    let grown : after.users
        ≡ db.users ++ new_user (suc db.user_seq) username password email user_type ∷ [] =
      ground arith in
    rw grown (All-snoc HasWord db.users _ v a.0)
perform-IsNamed now (update_profile_visibility visibility user_id) db after a v e =
    let mapped : after.users ≡ map (set_visibility visibility user_id) db.users = ground arith in
    rw mapped (
      All-map_kept HasWord (set_visibility visibility user_id) db.users
        (λ r h. subst IsWord (ground arith) h) v)
perform-IsNamed now (insert_request user friend) db after a v e =
    subst (All HasWord) (unfold insert_friend in ground arith) v
perform-IsNamed now (insert_reverse user friend) db after a v e =
    subst (All HasWord) (unfold insert_friend in ground arith) v
perform-IsNamed now _ db after a v e = subst (All HasWord) (ground arith) v

All-of_registered :
    (users : List UserRow) (u : Text)
    → All HasWord users
    → any (λ r. r.username == u) users ≡ true
    → IsWord u
unfolding any
All-of_registered [] u v h = absurd (ground arith)
All-of_registered (r ∷ users) u v h = elim (Bool-cases (r.username == u)) [
  | inl y ↦ subst IsWord ((text_beq_iff r.username u).0 y) v.0
  | inr n ↦ All-of_registered users u v.1 (rw n at h)
]

-- The name of a user is a word.
pub registered-IsWord : (db : Database) (u : Text) → IsNamed db → registered db u ≡ true → IsWord u
registered-IsWord db u v h = All-of_registered db.users u v h
