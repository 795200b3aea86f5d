-- ===== src/Client/Lines.antt =====
-- The texts that the server makes of a list, one line for each entry, and how the clients read
-- them.
use cpp_social_network_clien.Common.{
  ℕ, ℤ, suc, negsuc, true, not, ◌||◌, ◌≡◌, refl, ap, ◌∙◌, List, [], ◌∷◌, ◌++◌, Text, arith, any,
  all, all_mono, all-append, pos, drop, select, is_empty, ◌==◌, nat_eq, if◌then◌else◌,
}
use cpp_social_network_clien.Stream.{is_space, is_digit}
use cpp_social_network_clien.Stream.Words.{IsWord}
use cpp_social_network_clien.Decimal.{to_string, int_to_string}
use cpp_social_network_clien.Decimal.Reading.{to_string-are_digits}
use cpp_social_network_clien.Client.Texts.{
  in_front, read_lines, one_line, read_lines-cons, contains, contains-line, starts_with,
}

-- Every line with a newline behind it.
abbrev pub unlines : List Text → Text
unlines [] = []
unlines (line ∷ lines) = line ++ 10 ∷ unlines lines

pub read_lines-unlines :
    (lines : List Text) → all one_line lines ≡ true → read_lines (unlines lines) ≡ lines
unfolding read_lines all
read_lines-unlines [] h = refl
read_lines-unlines (line ∷ lines) h =
    read_lines-cons line (unlines lines) (ground arith)
    ∙ ap (λ (t : List Text). line ∷ t) (read_lines-unlines lines (ground arith))

-- A text without a newline stands in the whole exactly if it stands in one of the lines.
pub contains-unlines :
    (c : ℕ) (p : Text) (lines : List Text)
    → one_line (c ∷ p) ≡ true
    → contains (c ∷ p) (unlines lines) ≡ any (contains (c ∷ p)) lines
unfolding any
contains-unlines c p [] h = unfold contains starts_with in refl
contains-unlines c p (line ∷ lines) h =
    contains-line c p line (unlines lines) h
    ∙ ap (λ b. contains (c ∷ p) line || b) (contains-unlines c p lines h)

pub one_line-append :
    (s t : Text) → one_line s ≡ true → one_line t ≡ true → one_line (s ++ t) ≡ true
one_line-append s t h k = all-append (λ c. not (c == 10)) s t ∙ rw (h, k) refl

-- QString::split('\n'): what stands before, between and behind the newlines.
unfoldable pub split_lines : Text → List Text
split_lines [] = [] ∷ []
split_lines (c ∷ s) = let rest = split_lines s in if c == 10 then [] ∷ rest else in_front c rest

pub split_lines-cons :
    (line rest : Text)
    → one_line line ≡ true
    → split_lines (line ++ 10 ∷ rest) ≡ line ∷ split_lines rest
unfolding split_lines all
split_lines-cons [] rest h = refl
split_lines-cons (c ∷ line) rest h = ground (arith, split_lines-cons line rest)

-- Behind the last newline stands an empty text.
pub split_lines-unlines :
    (lines : List Text) → all one_line lines ≡ true → split_lines (unlines lines) ≡ lines ++ [] ∷ []
unfolding split_lines all
split_lines-unlines [] h = refl
split_lines-unlines (line ∷ lines) h =
    split_lines-cons line (unlines lines) (ground arith)
    ∙ ap (λ (t : List Text). line ∷ t) (split_lines-unlines lines (ground arith))

-- if (line.empty()) continue;
abbrev pub nonempty_lines : List Text → List Text
nonempty_lines lines = select (λ line. not (is_empty line)) lines

pub nonempty_lines-all :
    (lines : List Text)
    → all (λ line. not (is_empty line)) lines ≡ true
    → nonempty_lines lines ≡ lines
unfolding select all
nonempty_lines-all [] h = refl
nonempty_lines-all (line ∷ lines) h = ground (arith, nonempty_lines-all lines)

pub word-one_line : (w : Text) → IsWord w → one_line w ≡ true
word-one_line w v =
    all_mono (λ c. not (is_space c)) (λ c. not (c == 10)) w (λ c h. ground arith) v.unspaced

pub number-one_line : (n : ℕ) → one_line (int_to_string (pos n)) ≡ true
unfolding int_to_string
number-one_line n =
    all_mono is_digit (λ c. not (c == 10)) (to_string n) (λ c h. ground arith)
      (to_string-are_digits n)

pub int-one_line : (n : ℤ) → one_line (int_to_string n) ≡ true
int-one_line (pos n) = number-one_line n
int-one_line (negsuc n) = unfold int_to_string all in number-one_line (suc n)

-- A response with a heading: the first line is thrown away, and the others are kept.
pub read_lines-heading :
    (heading : Text) (lines : List Text)
    → one_line heading ≡ true
    → all one_line lines ≡ true
    → all (λ line. not (is_empty line)) lines ≡ true
    → nonempty_lines (drop 1 (read_lines (heading ++ 10 ∷ unlines lines))) ≡ lines
unfolding drop
read_lines-heading heading lines h k m =
    ap (λ (t : List Text). nonempty_lines (drop 1 t))
      (read_lines-cons heading (unlines lines) h
        ∙ ap (λ (t : List Text). heading ∷ t) (read_lines-unlines lines k))
    ∙ nonempty_lines-all lines m
