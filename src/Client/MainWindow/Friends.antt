-- ===== src/Client/MainWindow/Friends.antt =====
-- qt_client/MainWindow.cpp, `loadFriends`, on the response of `list_friends`.
use mathlib.Core.List.{append_assoc}
use cpp_social_network_clien.Common.{
  ℕ, zero, suc, ℤ, pos, negsuc, true, false, not, ◌≡◌, refl, ap, ◌∙◌, List, [], ◌∷◌, ◌++◌, map,
  Text, text, arith, all, all-append, All, is_empty, ◌==◌, nat_eq, int_eq, if◌then◌else◌,
}
use cpp_social_network_clien.Stream.{is_space}
use cpp_social_network_clien.Stream.Words.{IsWord, extract_word_first}
use cpp_social_network_clien.Decimal.{int_to_string}
use cpp_social_network_clien.Decimal.Reading.{extract_int-to_string}
use cpp_social_network_clien.Database.{Engine}
use cpp_social_network_clien.Database.Friends.{out_of_range, get_friends}
use cpp_social_network_clien.SessionManager.{is_authenticated, get_username}
use cpp_social_network_clien.App.{App}
use cpp_social_network_clien.Commands.Friendship.{friend_lines, execute_list_friends}
use cpp_social_network_clien.Client.Texts.{contains, starts_with, one_line, has_pair, not_contains}
use cpp_social_network_clien.Client.Lines.{
  unlines, read_lines-heading, word-one_line, number-one_line,
}
use cpp_social_network_clien.Client.MainWindow.{FriendItem, friend_item, read_friend, load_friends}

-- A name that passes through the protocol, and a type that setFriendType admits.
abbrev pub IsFriendEntry : Text × ℤ → Type 0
IsFriendEntry f = IsWord f.0 × (out_of_range f.1 ≡ false)

abbrev friend_line : Text × ℤ → Text
friend_line f = f.0 ++ 32 ∷ int_to_string f.1

friend_lines_lem :
    (friends : List (Text × ℤ)) → friend_lines friends ≡ unlines (map friend_line friends)
unfolding friend_lines
friend_lines_lem [] = refl
friend_lines_lem ((name, type) ∷ friends) = rw (friend_lines_lem friends) (simp append_assoc)

read_friend-line :
    (indeterminate : ℤ) (f : Text × ℤ)
    → IsFriendEntry f
    → read_friend indeterminate (friend_line f) ≡ friend_item f.0 f.1
unfolding read_friend
read_friend-line indeterminate (name, pos n) v =
    rw
      (
        extract_word_first name (32 ∷ int_to_string (pos n)) [] v.0 refl,
        extract_int-to_string n indeterminate (ground arith),
      )
      refl
read_friend-line indeterminate (name, negsuc n) v = absurd (ground arith)

-- Nothing in front of a space, and what follows the space is no `f`.
no_pair-append :
    (w rest : Text)
    → all (λ c. not (is_space c)) w ≡ true
    → has_pair 32 102 rest ≡ false
    → has_pair 32 102 (w ++ rest) ≡ false
unfolding has_pair all
no_pair-append [] rest h k = k
no_pair-append (c ∷ []) [] h k = refl
no_pair-append (c ∷ []) (d ∷ rest) h k = ground arith
no_pair-append (c ∷ d ∷ w) rest h k = ground (arith, no_pair-append (d ∷ w) rest)

no_pair-cons :
    (c : ℕ) (rest : Text)
    → (c == 32) ≡ false
    → has_pair 32 102 rest ≡ false
    → has_pair 32 102 (c ∷ rest) ≡ false
unfolding has_pair
no_pair-cons c [] h k = refl
no_pair-cons c (d ∷ rest) h k = ground arith

no_pair-type :
    (type : ℤ) (rest : Text)
    → out_of_range type ≡ false
    → has_pair 32 102 rest ≡ false
    → has_pair 32 102 (32 ∷ (int_to_string type ++ 10 ∷ rest)) ≡ false
unfolding has_pair int_to_string
no_pair-type (pos zero) rest h k = no_pair-cons 10 rest refl k
no_pair-type (pos (suc zero)) rest h k = no_pair-cons 10 rest refl k
no_pair-type (pos (suc (suc zero))) rest h k = no_pair-cons 10 rest refl k
no_pair-type (pos (suc (suc (suc n)))) rest h k = absurd (ground arith)
no_pair-type (negsuc n) rest h k = absurd (ground arith)

no_pair-friends :
    (friends : List (Text × ℤ))
    → All IsFriendEntry friends
    → has_pair 32 102 (unlines (map friend_line friends)) ≡ false
unfolding has_pair
no_pair-friends [] v = refl
no_pair-friends (f ∷ friends) v =
    rw (append_assoc f.0 (32 ∷ int_to_string f.1) (10 ∷ unlines (map friend_line friends))) (
      no_pair-append f.0 _ v.0.0.unspaced
        (no_pair-type f.1 (unlines (map friend_line friends)) v.0.1 (no_pair-friends friends v.1)))

friend_line-one_line : (f : Text × ℤ) → IsFriendEntry f → one_line (friend_line f) ≡ true
friend_line-one_line (name, pos n) v =
    all-append (λ c. not (c == 10)) name (32 ∷ int_to_string (pos n))
    ∙ rw (word-one_line name v.0) (unfold all in number-one_line n)
friend_line-one_line (name, negsuc n) v = absurd (ground arith)

friend_lines-one_line :
    (friends : List (Text × ℤ))
    → All IsFriendEntry friends
    → all one_line (map friend_line friends) ≡ true
unfolding all
friend_lines-one_line [] v = refl
friend_lines-one_line (f ∷ friends) v =
    rw (friend_line-one_line f v.0) (friend_lines-one_line friends v.1)

friend_lines-nonempty :
    (friends : List (Text × ℤ)) → all (λ line. not (is_empty line)) (map friend_line friends) ≡ true
unfolding all
friend_lines-nonempty [] = refl
friend_lines-nonempty (([], type) ∷ friends) = friend_lines-nonempty friends
friend_lines-nonempty ((c ∷ name, type) ∷ friends) = friend_lines-nonempty friends

read_friends-lines :
    (indeterminate : ℤ) (friends : List (Text × ℤ))
    → All IsFriendEntry friends
    → map (read_friend indeterminate) (map friend_line friends)
      ≡ map (λ f. friend_item f.0 f.1) friends
read_friends-lines indeterminate [] v = refl
read_friends-lines indeterminate (f ∷ friends) v = rw (read_friend-line indeterminate f v.0) (
    ap (λ (t : List FriendItem). friend_item f.0 f.1 ∷ t)
      (read_friends-lines indeterminate friends v.1))

no_pair-heading :
    (rest : Text)
    → has_pair 32 102 rest ≡ false
    → has_pair 32 102 (text "OK Friends list:\n" ++ rest) ≡ false
unfolding has_pair
no_pair-heading rest h = no_pair-cons 10 rest refl h

-- The response with the lines of some friends.
load_friends-lines :
    (indeterminate : ℤ) (friends : List (Text × ℤ))
    → All IsFriendEntry friends
    → load_friends indeterminate (text "OK Friends list:\n" ++ unlines (map friend_line friends))
      ≡ map (λ f. friend_item f.0 f.1) friends
unfolding load_friends
load_friends-lines indeterminate friends v =
    rw
      (not_contains 32 102 (text "No friends")
        (text "OK Friends list:\n" ++ unlines (map friend_line friends)) (unfold has_pair in refl)
        (no_pair-heading _ (no_pair-friends friends v)))
      (ap (map (read_friend indeterminate)) (
          read_lines-heading (text "OK Friends list:") (map friend_line friends)
            (unfold all in refl) (friend_lines-one_line friends v) (friend_lines-nonempty friends))
        ∙ read_friends-lines indeterminate friends v)

abbrev list_response : List (Text × ℤ) → Text
list_response friends =
    if is_empty friends
    then text "OK No friends\n"
    else text "OK Friends list:\n" ++ friend_lines friends

shown_friends :
    (indeterminate : ℤ) (friends : List (Text × ℤ))
    → All IsFriendEntry friends
    → load_friends indeterminate (list_response friends) ≡ (
        if is_empty friends
        then record { label = text "(no friends yet)"; user = [] } ∷ []
        else map (λ f. friend_item f.0 f.1) friends)
shown_friends indeterminate [] v = unfold load_friends contains starts_with in refl
shown_friends indeterminate (f ∷ friends) v =
    rw (friend_lines_lem (f ∷ friends)) (load_friends-lines indeterminate (f ∷ friends) v)

-- The window lists the friends that the server has for the user, each under his name, and with the
-- icon of his type, in the same order; or says that there are none. The names have to be
-- words, and the types in range.
pub load_friends-list_friends :
    (e : Engine) (sd : ℕ) (s : App) (indeterminate : ℤ)
    → is_authenticated sd s.sessions ≡ true
    → All IsFriendEntry (get_friends e s.db (get_username sd s.sessions))
    → load_friends indeterminate (execute_list_friends e sd s).1 ≡ (
        if is_empty (get_friends e s.db (get_username sd s.sessions))
        then record { label = text "(no friends yet)"; user = [] } ∷ []
        else map (λ f. friend_item f.0 f.1) (get_friends e s.db (get_username sd s.sessions)))
unfolding execute_list_friends
load_friends-list_friends e sd s indeterminate within v = rw within (
    ap (load_friends indeterminate) (ground arith)
    ∙ shown_friends indeterminate (get_friends e s.db (get_username sd s.sessions)) v)
