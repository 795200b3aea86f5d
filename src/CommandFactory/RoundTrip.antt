-- ===== src/CommandFactory/RoundTrip.antt =====
-- server/CommandFactory.cpp: the command that each kind of line stands for.
use mathlib.Core.List.{append-nil}
use cpp_social_network_clien.Common.{
  sym, ℕ, zero, suc, ◌<◌, ◌≤◌, ◌^◌, ℤ, pos, true, false, not, ◌≡◌, refl, ap, ◌∙◌, some, List, [],
  ◌∷◌, ◌++◌, Text, text, arith, all, All, is_empty, length, length-append, ◌==◌, nat_eq, text_beq,
}
use cpp_social_network_clien.Stream.{
  Stream, take_while, skip_space, extract_word, extract_int, get_line,
}
use cpp_social_network_clien.Stream.Words.{
  IsWord, word_ends, take_while-all, extract_word_lem, extract_word_last,
}
use cpp_social_network_clien.Decimal.{int_to_string}
use cpp_social_network_clien.Decimal.Reading.{extract_int-to_string}
use cpp_social_network_clien.Command.{Command}
use cpp_social_network_clien.CommandFactory.{
  create, create_send, create_login, create_set_friend_type, create_group, create_open, read_users,
  erase_space,
}

-- The stream behind the name of the command.
abbrev pub behind : Text → Stream
behind rest = record { rest = 32 ∷ rest; eof = false; failed = false }

module _ (indeterminate : ℤ) (rest : Text) where
  create-send_behind : create indeterminate (text "send " ++ rest) ≡ create_send (behind rest)
  unfolding create text_beq
  create-send_behind = refl

  create-login_behind : create indeterminate (text "login " ++ rest) ≡ create_login (behind rest)
  unfolding create text_beq
  create-login_behind = refl

  create-group_behind : create indeterminate (text "group " ++ rest) ≡ create_group (behind rest)
  unfolding create text_beq
  create-group_behind = refl

  create-open_behind :
      create indeterminate (text "open " ++ rest) ≡ create_open indeterminate (behind rest)
  unfolding create text_beq
  create-open_behind = refl

  pub create-set_friend_type_behind :
      create indeterminate (text "set_friend_type " ++ rest)
      ≡ create_set_friend_type indeterminate (behind rest)
  unfolding create text_beq
  create-set_friend_type_behind = refl

-- `send` with a text that is not empty and has no newline takes all of it, behind one space, as
-- the message, further spaces in front included.
pub create-send :
    (indeterminate : ℤ) (content : Text)
    → is_empty content ≡ false
    → all (λ c. not (c == 10)) content ≡ true
    → create indeterminate (text "send " ++ content) ≡ some (Command.send content)
unfolding create_send get_line take_while erase_space
create-send indeterminate content given one_line =
    create-send_behind indeterminate content
    ∙ rw (take_while-all (λ c. not (c == 10)) content one_line, given)

-- A name and a password that are words, with one space in between, reach the login command as they
-- were typed.
pub create-login :
    (indeterminate : ℤ) (user pass : Text)
    → IsWord user
    → IsWord pass
    → create indeterminate (text "login " ++ (user ++ 32 ∷ pass)) ≡ some (Command.login user pass)
unfolding create_login
create-login indeterminate user pass u p =
    create-login_behind indeterminate (user ++ 32 ∷ pass)
    ∙ rw (extract_word_lem user (32 ∷ pass) [] u refl, extract_word_last pass [] p)

-- The number of a conversation below 2^31, printed as the server prints it, is the number that
-- `open` passes on.
pub create-open :
    (indeterminate : ℤ) (n : ℕ)
    → n < 2 ^ 31
    → create indeterminate (text "open " ++ int_to_string (pos n))
      ≡ some (Command.open_conversation (pos n))
create-open indeterminate n small =
    create-open_behind indeterminate (int_to_string (pos n))
    ∙ unfold create_open in rw (extract_int-to_string n indeterminate small) refl

-- `set_friend_type` with a name that is a word and no number makes a command whose type is
-- whatever the uninitialised variable held.
pub create-set_friend_type_indeterminate :
    (indeterminate : ℤ) (user : Text)
    → IsWord user
    → create indeterminate (text "set_friend_type " ++ user)
      ≡ some (Command.set_friend_type user indeterminate)
unfolding create_set_friend_type extract_int skip_space
create-set_friend_type_indeterminate indeterminate user u =
    create-set_friend_type_behind indeterminate user ∙ rw (extract_word_last user [] u)

-- Words with a space in front of each but the first.
abbrev pub spaced : List Text → Text
spaced [] = []
spaced (w ∷ []) = w
spaced (w ∷ v ∷ ws) = w ++ 32 ∷ spaced (v ∷ ws)

abbrev spaced_behind : List Text → Text
spaced_behind [] = []
spaced_behind (w ∷ ws) = 32 ∷ (w ++ spaced_behind ws)

spaced_behind_lem : (w : Text) (ws : List Text) → 32 ∷ spaced (w ∷ ws) ≡ spaced_behind (w ∷ ws)
spaced_behind_lem w [] = ap (λ (t : Text). 32 ∷ t) (sym (append-nil w))
spaced_behind_lem w (v ∷ ws) = ap (λ (t : Text). 32 ∷ (w ++ t)) (spaced_behind_lem v ws)

spaced_behind-ends : (ws : List Text) → word_ends (spaced_behind ws) ≡ true
spaced_behind-ends [] = refl
spaced_behind-ends (w ∷ ws) = refl

-- The loop reads every word, with fuel above their number.
read_users-All :
    (fuel : ℕ) (ws : List Text) (old : Text)
    → length ws < fuel
    → All IsWord ws
    → read_users fuel
        (record { rest = spaced_behind ws; eof = is_empty (spaced_behind ws); failed = false })
        old
      ≡ ws
unfolding read_users
read_users-All zero ws old h v = absurd (omega arith)
read_users-All (suc fuel) [] old h v = unfold extract_word skip_space in refl
read_users-All (suc fuel) (w ∷ ws) old h v =
    rw (extract_word_lem w (spaced_behind ws) old v.0 (spaced_behind-ends ws))
      (ap (λ (rest : List Text). w ∷ rest) (read_users-All fuel ws w (omega arith) v.1))

length-spaced_behind : (ws : List Text) → length ws ≤ length (spaced_behind ws)
length-spaced_behind [] = omega arith
length-spaced_behind (w ∷ ws) =
    omega (arith, length-spaced_behind ws, length-append w (spaced_behind ws))

-- `group` with one name or more, all of them words with one space in between, reads every name,
-- however many there are.
pub create-group :
    (indeterminate : ℤ) (w : Text) (ws : List Text)
    → All IsWord (w ∷ ws)
    → create indeterminate (text "group " ++ spaced (w ∷ ws)) ≡ some (Command.group (w ∷ ws))
unfolding create_group
create-group indeterminate w ws v =
    create-group_behind indeterminate (spaced (w ∷ ws))
    ∙ rw (
      spaced_behind_lem w ws,
      read_users-All (suc (length (behind (spaced (w ∷ ws))).rest)) (w ∷ ws) []
          (omega
            (arith, ap (length {A = ℕ}) (spaced_behind_lem w ws), length-spaced_behind (w ∷ ws)))
          v,
    )
