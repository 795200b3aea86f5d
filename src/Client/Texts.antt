-- ===== src/Client/Texts.antt =====
-- std::string::find and the loop over std::getline, as the clients read a response.

use cpp_social_network_clien.Common.{
  ℕ, Bool, Bool-cases, inl, inr, true, false, not, ◌&&◌, ◌||◌, ◌≡◌, refl, List, [], ◌∷◌, ◌++◌, Text,
  arith, all, ◌==◌, nat_eq, if◌then◌else◌,
}

unfoldable pub starts_with : Text → Text → Bool
starts_with [] s = true
starts_with (c ∷ p) [] = false
starts_with (c ∷ p) (d ∷ s) = c == d && starts_with p s

-- s.find(p) != std::string::npos
unfoldable pub contains : Text → Text → Bool
unfolding starts_with
contains p [] = starts_with p []
contains p (c ∷ s) = starts_with p (c ∷ s) || contains p s

-- One more character in front of the first line.
abbrev pub in_front : ℕ → List Text → List Text
in_front c [] = (c ∷ []) ∷ []
in_front c (line ∷ lines) = (c ∷ line) ∷ lines

-- while (std::getline(stream, line)): a newline at the very end begins no further line.
unfoldable pub read_lines : Text → List Text
read_lines [] = []
read_lines (c ∷ s) = let rest = read_lines s in if c == 10 then [] ∷ rest else in_front c rest

abbrev pub one_line : Text → Bool
one_line line = all (λ c. not (c == 10)) line

-- A line is read up to its newline, whatever follows.
pub read_lines-cons :
    (line rest : Text)
    → one_line line ≡ true
    → read_lines (line ++ 10 ∷ rest) ≡ line ∷ read_lines rest
unfolding read_lines all
read_lines-cons [] rest h = refl
read_lines-cons (c ∷ line) rest h = ground (arith, read_lines-cons line rest)

pub starts_with-append : (p s t : Text) → starts_with p s ≡ true → starts_with p (s ++ t) ≡ true
unfolding starts_with
starts_with-append [] s t h = refl
starts_with-append (c ∷ p) [] t h = absurd (ground arith)
starts_with-append (c ∷ p) (d ∷ s) t h = ground (arith, starts_with-append p s t)

pub contains-append_left : (p s t : Text) → contains p s ≡ true → contains p (s ++ t) ≡ true
unfolding contains
contains-append_left p [] [] h = h
contains-append_left p [] (c ∷ t) h = ground (arith, starts_with-append p [] (c ∷ t) h)
contains-append_left p (c ∷ s) t h =
    ground (arith, starts_with-append p (c ∷ s) t, contains-append_left p s t)

pub contains-append_right : (p s t : Text) → contains p t ≡ true → contains p (s ++ t) ≡ true
unfolding contains
contains-append_right p [] t h = h
contains-append_right p (c ∷ s) t h = ground (arith, contains-append_right p s t)

starts_with-line :
    (p line rest : Text)
    → one_line p ≡ true
    → starts_with p (line ++ 10 ∷ rest) ≡ starts_with p line
unfolding starts_with all
starts_with-line [] [] rest h = refl
starts_with-line [] (d ∷ line) rest h = refl
starts_with-line (c ∷ p) [] rest h = ground arith
starts_with-line (c ∷ p) (d ∷ line) rest h = ground (arith, starts_with-line p line rest)

-- A text without a newline stands in a line or behind it, never across.
pub contains-line :
    (c : ℕ) (p line rest : Text)
    → one_line (c ∷ p) ≡ true
    → contains (c ∷ p) (line ++ 10 ∷ rest) ≡ (contains (c ∷ p) line || contains (c ∷ p) rest)
unfolding contains
contains-line c p [] rest h = unfold starts_with in ground (arith, starts_with-line (c ∷ p) [] rest)
contains-line c p (d ∷ line) rest h =
    ground (arith, starts_with-line (c ∷ p) (d ∷ line) rest, contains-line c p line rest)

-- Two bytes, one behind the other, somewhere in the text.
unfoldable pub has_pair : ℕ → ℕ → Text → Bool
has_pair a b [] = false
has_pair a b (c ∷ []) = false
has_pair a b (c ∷ d ∷ s) = (c == a && d == b) || has_pair a b (d ∷ s)

has_pair-starts_with :
    (a b : ℕ) (p s : Text) → has_pair a b p ≡ true → starts_with p s ≡ true → has_pair a b s ≡ true
unfolding has_pair starts_with
has_pair-starts_with a b [] s h k = absurd (ground arith)
has_pair-starts_with a b (c ∷ []) s h k = absurd (ground arith)
has_pair-starts_with a b (c ∷ d ∷ p) [] h k = absurd (ground arith)
has_pair-starts_with a b (c ∷ d ∷ p) (x ∷ []) h k = absurd (ground arith)
has_pair-starts_with a b (c ∷ d ∷ p) (x ∷ y ∷ s) h k =
    ground (arith, has_pair-starts_with a b (d ∷ p) (y ∷ s))

has_pair-tail : (a b c : ℕ) (s : Text) → has_pair a b s ≡ true → has_pair a b (c ∷ s) ≡ true
unfolding has_pair
has_pair-tail a b c [] h = absurd (ground arith)
has_pair-tail a b c (d ∷ s) h = ground arith

-- A text without a pair that stands in `p` does not contain `p`.
pub has_pair-contains :
    (a b : ℕ) (p s : Text) → has_pair a b p ≡ true → contains p s ≡ true → has_pair a b s ≡ true
unfolding contains
has_pair-contains a b p [] h k = has_pair-starts_with a b p [] h k
has_pair-contains a b p (c ∷ s) h k = elim (Bool-cases (starts_with p (c ∷ s))) [
  | inl y ↦ has_pair-starts_with a b p (c ∷ s) h y
  | inr n ↦ has_pair-tail a b c s (has_pair-contains a b p s h (ground arith))
]

pub not_contains :
    (a b : ℕ) (p s : Text) → has_pair a b p ≡ true → has_pair a b s ≡ false → contains p s ≡ false
not_contains a b p s h k = ground (arith, has_pair-contains a b p s)
