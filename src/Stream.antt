-- ===== src/Stream.antt =====
-- std::stringstream as the server reads it: `operator>>` of a string and of an int, and
-- std::getline, in the classic locale, with the state bits that they set.
pub mod Words
use cpp_social_network_clien.Common.{
  ℕ, zero, suc, ◌+◌, ◌-◌, ◌*◌, ◌^◌, Bool, true, false, not, ◌&&◌, ◌||◌, List, [], ◌∷◌, ℤ, pos,
  negsuc, Text, leb, ltb, ◌==◌, nat_eq, if◌then◌else◌, is_empty,
}

-- What is left to read, eofbit and failbit.
pub record Stream : Type 0 where
  pub rest : Text
  pub eof : Bool
  pub failed : Bool

-- std::stringstream ss(input)
abbrev pub open_stream : Text → Stream
open_stream input = record { rest = input; eof = false; failed = false }

abbrev pub good : Stream → Bool
good s = not s.eof && not s.failed

-- std::isspace
abbrev pub is_space : ℕ → Bool
is_space c = c == 32 || (leb 9 c && leb c 13)

abbrev pub is_digit : ℕ → Bool
is_digit c = leb 48 c && leb c 57

unfoldable pub take_while : (ℕ → Bool) → Text → Text
take_while p [] = []
take_while p (c ∷ s) = let more = c ∷ take_while p s in if p c then more else []

unfoldable pub drop_while : (ℕ → Bool) → Text → Text
drop_while p [] = []
drop_while p (c ∷ s) = let more = drop_while p s in if p c then more else c ∷ s

-- The sentry that skips white space: eofbit and failbit if nothing else is left, failbit if the
-- stream is not good.
unfoldable pub skip_space : Stream → Stream
unfolding drop_while
skip_space s =
    if good s
    then (let rest = drop_while is_space s.rest in
        record { rest = rest; eof = is_empty rest; failed = is_empty rest })
    else record s { failed = true }

-- ss >> word: the stream afterwards, and the variable, which keeps its value if nothing is read.
unfoldable pub extract_word : Stream → Text → Stream × Text
unfolding skip_space take_while drop_while
extract_word s old =
    let at = skip_space s in
    let after = drop_while (λ c. not (is_space c)) at.rest in
    if at.failed then (at, old) else (
      record { rest = after; eof = is_empty after; failed = false },
      take_while (λ c. not (is_space c)) at.rest,
    )

unfoldable pub digits_value : ℕ → Text → ℕ
digits_value acc [] = acc
digits_value acc (c ∷ s) = digits_value (acc * 10 + (c - 48)) s

-- The number behind a sign: its value, clamped to an `int`, and whether it had to be.
abbrev pub clamp : Bool → ℕ → ℤ × Bool
clamp false n = if ltb n (2 ^ 31) then (pos n, false) else (pos (2 ^ 31 - 1), true)
clamp true zero = (pos 0, false)
clamp true (suc n) = if ltb n (2 ^ 31) then (negsuc n, false) else (negsuc (2 ^ 31 - 1), true)

-- The digits behind the sign. Without any, the value is 0 and failbit is set.
unfoldable pub parse_digits : Bool → Text → Stream × ℤ
unfolding take_while drop_while digits_value
parse_digits negative s =
    let found = take_while is_digit s in
    let after = drop_while is_digit s in
    let (value, overflow) = clamp negative (digits_value 0 found) in
    if is_empty found
    then (record { rest = after; eof = is_empty after; failed = true }, pos 0)
    else (record { rest = after; eof = is_empty after; failed = overflow }, value)

unfoldable pub parse_int : Text → Stream × ℤ
unfolding parse_digits
parse_int [] = parse_digits false []
parse_int (c ∷ s) =
    if c == 45
    then parse_digits true s
    else if c == 43
    then parse_digits false s
    else parse_digits false (c ∷ s)

-- ss >> number: the variable keeps its value, if any, where the sentry fails.
unfoldable pub extract_int : Stream → ℤ → Stream × ℤ
unfolding skip_space parse_int
extract_int s old = let at = skip_space s in if at.failed then (at, old) else parse_int at.rest

-- std::getline(ss, line), with `line` empty before.
unfoldable pub get_line : Stream → Text
unfolding take_while
get_line s = if good s then take_while (λ c. not (c == 10)) s.rest else []
