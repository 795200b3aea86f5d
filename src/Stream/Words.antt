-- ===== src/Stream/Words.antt =====
-- What `operator>>` reads from a text whose words are known.
use mathlib.Core.List.{append-nil}
use cpp_social_network_clien.Common.{
  ℕ, Bool, true, false, not, ◌≡◌, refl, ap, sym, ◌∙◌, [], ◌∷◌, ◌++◌, Text, arith, all, is_empty,
  nat_eq,
}
use cpp_social_network_clien.Stream.{
  is_space, take_while, drop_while, skip_space, extract_word, open_stream,
}

-- What a name, a password or an address has to be to pass through the protocol.
pub record IsWord (w : Text) : Type 0 where
  pub nonempty : is_empty w ≡ false
  pub unspaced : all (λ c. not (is_space c)) w ≡ true

-- The text ends here, or white space follows.
abbrev pub word_ends : Text → Bool
word_ends [] = true
word_ends (c ∷ t) = is_space c

module _ (p : ℕ → Bool) where
  pub take_while-all : (w : Text) → all p w ≡ true → take_while p w ≡ w
  unfolding take_while all
  take_while-all [] h = refl
  take_while-all (c ∷ w) h = ground (arith, take_while-all w)

  pub take_while-append :
      (w t : Text) (c : ℕ) → all p w ≡ true → p c ≡ false → take_while p (w ++ c ∷ t) ≡ w
  unfolding take_while all
  take_while-append [] t c h k = rw k
  take_while-append (d ∷ w) t c h k = ground (arith, take_while-append w t c)

  pub drop_while-all : (w : Text) → all p w ≡ true → drop_while p w ≡ []
  unfolding drop_while all
  drop_while-all [] h = refl
  drop_while-all (c ∷ w) h = ground (arith, drop_while-all w)

  pub drop_while-append :
      (w t : Text) (c : ℕ) → all p w ≡ true → p c ≡ false → drop_while p (w ++ c ∷ t) ≡ c ∷ t
  unfolding drop_while all
  drop_while-append [] t c h k = rw k
  drop_while-append (d ∷ w) t c h k = ground (arith, drop_while-append w t c)

abbrev word_char : ℕ → Bool
word_char c = not (is_space c)

take_word : (w t : Text) → IsWord w → word_ends t ≡ true → take_while word_char (w ++ t) ≡ w
take_word w [] v h = rw append-nil (take_while-all word_char w v.unspaced)
take_word w (c ∷ t) v h = take_while-append word_char w t c v.unspaced (rw h)

drop_word : (w t : Text) → IsWord w → word_ends t ≡ true → drop_while word_char (w ++ t) ≡ t
drop_word w [] v h = rw append-nil (drop_while-all word_char w v.unspaced)
drop_word w (c ∷ t) v h = drop_while-append word_char w t c v.unspaced (rw h)

no_space_ahead : (w t : Text) → IsWord w → drop_while is_space (w ++ t) ≡ w ++ t
unfolding drop_while all
no_space_ahead [] t v = absurd (ground arith)
no_space_ahead (c ∷ w) t v = ground arith

is_empty-append : (w t : Text) → is_empty w ≡ false → is_empty (w ++ t) ≡ false
is_empty-append [] t h = absurd (ground arith)
is_empty-append (c ∷ w) t h = refl

-- A word behind a space is read whole, up to the end or the next white space.
pub extract_word_lem :
    (w t old : Text)
    → IsWord w
    → word_ends t ≡ true
    → extract_word (record { rest = 32 ∷ (w ++ t); eof = false; failed = false }) old
      ≡ (record { rest = t; eof = is_empty t; failed = false }, w)
unfolding extract_word skip_space drop_while
extract_word_lem w t old v h =
    rw (no_space_ahead w t v, is_empty-append w t v.nonempty, drop_word w t v h, take_word w t v h)

-- A word at the start of a text is read in the same way.
pub extract_word_first :
    (w t old : Text)
    → IsWord w
    → word_ends t ≡ true
    → extract_word (open_stream (w ++ t)) old
      ≡ (record { rest = t; eof = is_empty t; failed = false }, w)
unfolding extract_word skip_space drop_while
extract_word_first w t old v h =
    rw (no_space_ahead w t v, is_empty-append w t v.nonempty, drop_word w t v h, take_word w t v h)

-- The last word of a line.
pub extract_word_last :
    (w old : Text)
    → IsWord w
    → extract_word (record { rest = 32 ∷ w; eof = false; failed = false }) old
      ≡ (record { rest = []; eof = true; failed = false }, w)
extract_word_last w old v =
    ap (λ (t : Text). extract_word (record { rest = 32 ∷ t; eof = false; failed = false }) old)
      (sym (append-nil w))
    ∙ extract_word_lem w [] old v refl
