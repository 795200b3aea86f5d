-- ===== src/Client/MessagesWindow/Items.antt =====
-- qt_client/MessagesWindow.cpp, `loadConversations`: what is read of the line of one conversation.
use mathlib.Core.List.{append_assoc}
use cpp_social_network_clien.Common.{
  ℕ, suc, ◌+◌, ◌-◌, ◌<◌, ◌≤◌, ◌^◌, ℤ, pos, true, not, ◌≡◌, refl, ap, sym, ◌∙◌, some, [], ◌∷◌, ◌++◌,
  Text, arith, all, all_mono, ◌==◌, nat_eq, length, length-append, take, drop,
}
use cpp_social_network_clien.Stream.{is_digit}
use cpp_social_network_clien.Decimal.{to_string}
use cpp_social_network_clien.Decimal.Reading.{extract_int-to_string_start, to_string-are_digits}
use cpp_social_network_clien.Client.MessagesWindow.{
  index_of, stoi, substr, substr_to, display_text, read_item, brackets,
}

-- The line of a conversation.
abbrev pub chat_line : ℕ → Text → Text
chat_line n users = 91 ∷ (to_string n ++ 93 ∷ 32 ∷ users)

index_of-append :
    (c : ℕ) (w t : Text)
    → all (λ d. not (d == c)) w ≡ true
    → index_of c (w ++ c ∷ t) ≡ some (length w)
unfolding index_of all
index_of-append c [] t h = ground arith
index_of-append c (d ∷ w) t h = rw (index_of-append c w t (ground arith)) (ground arith)

to_string-no_bracket : (n : ℕ) → all (λ d. not (d == 93)) (to_string n) ≡ true
to_string-no_bracket n =
    all_mono is_digit (λ d. not (d == 93)) (to_string n) (λ d h. ground arith)
      (to_string-are_digits n)

brackets_found :
    (line : Text) (l r : ℕ)
    → index_of 91 line ≡ some l
    → index_of 93 line ≡ some r
    → brackets line ≡ some (l, r)
unfolding brackets
brackets_found line l r h k = ground arith

pub brackets-chat_line :
    (n : ℕ) (users : Text) → brackets (chat_line n users) ≡ some (0, suc (length (to_string n)))
brackets-chat_line n users =
    brackets_found (chat_line n users) 0 (suc (length (to_string n))) (unfold index_of in refl)
      (index_of-append 93 (91 ∷ to_string n) (32 ∷ users) (unfold all in to_string-no_bracket n))

take-length : (s t : Text) → take (length s) (s ++ t) ≡ s
unfolding take
take-length [] t = refl
take-length (c ∷ s) t = ap (λ (x : Text). c ∷ x) (take-length s t)

drop-length : (s t : Text) → drop (length s) (s ++ t) ≡ t
unfolding drop
drop-length [] t = refl
drop-length (c ∷ s) t = drop-length s t

substr_lem : (from : ℕ) (s : Text) → from ≤ length s → substr from s ≡ some (drop from s)
unfolding substr
substr_lem from s h = ground arith

substr_to_lem :
    (from to : ℕ) (s : Text)
    → from ≤ length s
    → from ≤ to
    → substr_to from to s ≡ some (take (to - from) (drop from s))
unfolding substr_to
substr_to_lem from to s h k = ground (arith, substr_lem from s)

number_between :
    (n : ℕ) (users : Text)
    → substr_to 1 (suc (length (to_string n))) (chat_line n users) ≡ some (to_string n)
unfolding drop take
number_between n users =
    substr_to_lem 1 (suc (length (to_string n))) (chat_line n users) (omega arith) (omega arith)
    ∙ ap some (
        ap (λ k. take k (to_string n ++ 93 ∷ 32 ∷ users)) (omega arith)
        ∙ take-length (to_string n) (93 ∷ 32 ∷ users))

-- What stands in front of the users.
abbrev chat_start : ℕ → Text
chat_start n = 91 ∷ (to_string n ++ 93 ∷ 32 ∷ [])

length-chat_start : (n : ℕ) → suc (length (to_string n)) + 2 ≡ length (chat_start n)
length-chat_start n = omega (arith, length-append (to_string n) (93 ∷ 32 ∷ []))

chat_line-start : (n : ℕ) (users : Text) → chat_start n ++ users ≡ chat_line n users
chat_line-start n users =
    ap (λ (t : Text). 91 ∷ t) (append_assoc (to_string n) (93 ∷ 32 ∷ []) users)

users_behind :
    (n : ℕ) (users : Text)
    → substr (suc (length (to_string n)) + 2) (chat_line n users) ≡ some users
users_behind n users =
    rw (length-chat_start n, sym (chat_line-start n users))
      (substr_lem (length (chat_start n)) (chat_start n ++ users)
          (omega (arith, length-append (chat_start n) users))
        ∙ ap some (drop-length (chat_start n) users))

stoi-to_string : (n : ℕ) → n < 2 ^ 31 → stoi (to_string n) ≡ some (pos n)
unfolding stoi
stoi-to_string n small = rw (extract_int-to_string_start n (pos 0) small) refl

read_item_found :
    (l r : ℕ) (line number users : Text) (conversation_id : ℤ)
    → substr_to (l + 1) r line ≡ some number
    → stoi number ≡ some conversation_id
    → substr (r + 2) line ≡ some users
    → read_item l r line
      ≡ some (record { label = display_text users; conversation_id = conversation_id })
unfolding read_item
read_item_found l r line number users conversation_id h k m = ground arith

pub read_item-chat_line :
    (n : ℕ) (users : Text)
    → n < 2 ^ 31
    → read_item 0 (suc (length (to_string n))) (chat_line n users)
      ≡ some (record { label = display_text users; conversation_id = pos n })
read_item-chat_line n users small =
    read_item_found 0 (suc (length (to_string n))) (chat_line n users) (to_string n) users (pos n)
      (number_between n users) (stoi-to_string n small) (users_behind n users)
