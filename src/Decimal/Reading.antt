-- ===== src/Decimal/Reading.antt =====
-- `operator>>` of a number that the server has printed.
use cpp_social_network_clien.Common.{
  ℕ, zero, suc, ◌+◌, ◌-◌, ◌*◌, ◌/◌, ◌%◌, ◌^◌, ◌<◌, ℤ, pos, Bool, true, false, ◌≡◌, refl, ap, ◌∙◌,
  [], ◌∷◌, ◌++◌, Text, arith, all, is_empty, ltb, if◌then◌else◌, nat_eq, Bool-cases, inl, inr,
}
use cpp_social_network_clien.Decimal.{digits, to_string, int_to_string}
use cpp_social_network_clien.Stream.{
  Stream, is_digit, is_space, drop_while, digits_value, parse_digits, parse_int, extract_int,
  skip_space, open_stream,
}
use cpp_social_network_clien.Stream.Words.{take_while-all, drop_while-all}

all-snoc :
    (p : ℕ → Bool) (xs : Text) (c : ℕ) → all p xs ≡ true → p c ≡ true → all p (xs ++ c ∷ []) ≡ true
unfolding all
all-snoc p [] c h k = rw k
all-snoc p (x ∷ xs) c h k = ground (arith, all-snoc p xs c)

digits-are_digits : (fuel n : ℕ) → all is_digit (digits fuel n) ≡ true
unfolding digits all
digits-are_digits zero n = refl
digits-are_digits (suc fuel) n = elim (Bool-cases (ltb n 10)) [
  | inl y ↦ rw y (ground arith)
  | inr k ↦ rw k (
      all-snoc is_digit (digits fuel (n / 10)) (n % 10 + 48) (digits-are_digits fuel (n / 10))
        (ground arith))
]

digits_value-snoc :
    (acc : ℕ) (xs : Text) (c : ℕ)
    → digits_value acc (xs ++ c ∷ []) ≡ digits_value acc xs * 10 + (c - 48)
unfolding digits_value
digits_value-snoc acc [] c = refl
digits_value-snoc acc (x ∷ xs) c = digits_value-snoc (acc * 10 + (x - 48)) xs c

digits_value-digits : (fuel n : ℕ) → n < fuel → digits_value 0 (digits fuel n) ≡ n
unfolding digits
digits_value-digits zero n h = absurd (omega arith)
digits_value-digits (suc fuel) n h = elim (Bool-cases (ltb n 10)) [
  | inl y ↦ rw y (unfold digits_value in omega arith)
  | inr k ↦ rw k (
      digits_value-snoc 0 (digits fuel (n / 10)) (n % 10 + 48)
      ∙ rw (digits_value-digits fuel (n / 10) (ground arith)) (omega arith))
]

snoc-cons : (xs : Text) (c : ℕ) → (d : ℕ) × (t : Text) × (xs ++ c ∷ [] ≡ d ∷ t)
snoc-cons [] c = (c, [], refl)
snoc-cons (x ∷ xs) c = (x, xs ++ c ∷ [], refl)

to_string-cons : (n : ℕ) → (c : ℕ) × (t : Text) × (to_string n ≡ c ∷ t)
unfolding to_string digits
to_string-cons n = elim (Bool-cases (ltb n 10)) [
  | inl y ↦ (n + 48, [], rw y)
  | inr k ↦ let (d, t, e) = snoc-cons (digits n (n / 10)) (n % 10 + 48) in (d, t, rw k e)
]

not_space : (c : ℕ) → is_digit c ≡ true → is_space c ≡ false
not_space c h = ground arith

digits_ahead :
    (c : ℕ) (t : Text)
    → is_digit c ≡ true
    → skip_space (record { rest = 32 ∷ c ∷ t; eof = false; failed = false })
      ≡ record { rest = c ∷ t; eof = false; failed = false }
unfolding skip_space drop_while
digits_ahead c t h = rw (not_space c h) refl

parse_int_unsigned :
    (c : ℕ) (t : Text) → is_digit c ≡ true → parse_int (c ∷ t) ≡ parse_digits false (c ∷ t)
unfolding parse_int
parse_int_unsigned c t h = ground arith

parse_digits-all :
    (s : Text) (n : ℕ)
    → all is_digit s ≡ true
    → is_empty s ≡ false
    → digits_value 0 s ≡ n
    → n < 2 ^ 31
    → parse_digits false s ≡ (record { rest = []; eof = true; failed = false }, pos n)
unfolding parse_digits
parse_digits-all s n h given value small =
    let fits : ltb n (2 ^ 31) ≡ true = ground arith in
    rw (take_while-all is_digit s h, drop_while-all is_digit s h, given, value, fits) refl

-- A text of digits, at the end of a line.
extract_int_digits :
    (s : Text) (n : ℕ) (old : ℤ)
    → all is_digit s ≡ true
    → is_empty s ≡ false
    → digits_value 0 s ≡ n
    → n < 2 ^ 31
    → extract_int (record { rest = 32 ∷ s; eof = false; failed = false }) old
      ≡ (record { rest = []; eof = true; failed = false }, pos n)
extract_int_digits [] n old h given value small = absurd (ground arith)
extract_int_digits (c ∷ t) n old h given value small =
    let digit : is_digit c ≡ true = unfold all in ground arith in
    unfold extract_int in
    ap (λ (at : Stream). if at.failed then (at, old) else parse_int at.rest)
      (digits_ahead c t digit)
    ∙ parse_int_unsigned c t digit
    ∙ parse_digits-all (c ∷ t) n h given value small

pub to_string-is_empty : (n : ℕ) → is_empty (to_string n) ≡ false
to_string-is_empty n = let (c, t, e) = to_string-cons n in rw e refl

pub to_string-are_digits : (n : ℕ) → all is_digit (to_string n) ≡ true
unfolding to_string
to_string-are_digits n = digits-are_digits (suc n) n

digits_value-to_string : (n : ℕ) → digits_value 0 (to_string n) ≡ n
unfolding to_string
digits_value-to_string n = digits_value-digits (suc n) n (omega arith)

-- A number below 2^31 that the server prints, at the end of a line, is read back as itself.
pub extract_int-to_string :
    (n : ℕ) (old : ℤ)
    → n < 2 ^ 31
    → extract_int (record { rest = 32 ∷ int_to_string (pos n); eof = false; failed = false }) old
      ≡ (record { rest = []; eof = true; failed = false }, pos n)
extract_int-to_string n old small =
    unfold int_to_string in
    extract_int_digits (to_string n) n old (to_string-are_digits n) (to_string-is_empty n)
      (digits_value-to_string n) small

digits_first :
    (c : ℕ) (t : Text)
    → is_digit c ≡ true
    → skip_space (open_stream (c ∷ t)) ≡ record { rest = c ∷ t; eof = false; failed = false }
unfolding skip_space drop_while
digits_first c t h = rw (not_space c h) refl

extract_int_start :
    (s : Text) (n : ℕ) (old : ℤ)
    → all is_digit s ≡ true
    → is_empty s ≡ false
    → digits_value 0 s ≡ n
    → n < 2 ^ 31
    → extract_int (open_stream s) old ≡ (record { rest = []; eof = true; failed = false }, pos n)
extract_int_start [] n old h given value small = absurd (ground arith)
extract_int_start (c ∷ t) n old h given value small =
    let digit : is_digit c ≡ true = unfold all in ground arith in
    unfold extract_int in
    ap (λ (at : Stream). if at.failed then (at, old) else parse_int at.rest)
      (digits_first c t digit)
    ∙ parse_int_unsigned c t digit
    ∙ parse_digits-all (c ∷ t) n h given value small

-- The same with nothing in front of it.
pub extract_int-to_string_start :
    (n : ℕ) (old : ℤ)
    → n < 2 ^ 31
    → extract_int (open_stream (to_string n)) old
      ≡ (record { rest = []; eof = true; failed = false }, pos n)
extract_int-to_string_start n old small =
    extract_int_start (to_string n) n old (to_string-are_digits n) (to_string-is_empty n)
      (digits_value-to_string n) small
