-- ===== src/Client/Cut.antt =====
-- qt_client/CreatePost.cpp against server/server.cpp: a post that does not fit into one read.
use cpp_social_network_clien.Common.{
  take-append, all-take, drop-append, ℕ, zero, suc, ℤ, pos, ◌≤◌, ◌<◌, ◌≡◌, refl, ap, ◌∙◌, true,
  false, not, [], ◌∷◌, ◌++◌, List, Text, text, newline, arith, all, length, take, drop, is_empty,
  ◌==◌, nat_eq,
}
use cpp_social_network_clien.Decimal.{int_to_string}
use cpp_social_network_clien.Database.{Engine}
use cpp_social_network_clien.App.{App, Outcome}
use cpp_social_network_clien.Command.{Command}
use cpp_social_network_clien.Commands.{execute}
use cpp_social_network_clien.Server.{trim_end, respond}
use cpp_social_network_clien.Server.Lines.{is_nonzero, respond_of_input}
use cpp_social_network_clien.Client.Texts.{one_line}
use cpp_social_network_clien.Client.Connection.{full_command, ends_line}
use cpp_social_network_clien.Client.Exchange.{Read, line_size, request, serve_reads}
use cpp_social_network_clien.Client.Actions.{post_text}
use cpp_social_network_clien.Client.Actions.Created.{create-create_post}
use cpp_social_network_clien.Client.Actions.Executed.{buffer_input-clean}
use cpp_social_network_clien.Client.Submitted.{trim_end-behind, trim_end-beside, beside-is_empty}

-- What is left of a read for the text of a post.
abbrev pub post_size : ℕ
post_size = 1009

ends_line-one_line : (t : Text) → one_line t ≡ true → ends_line t ≡ false
unfolding ends_line all
ends_line-one_line [] h = refl
ends_line-one_line (c ∷ []) h = ground arith
ends_line-one_line (c ∷ d ∷ t) h = ends_line-one_line (d ∷ t) (ground arith)

all-cut : (content : Text) → one_line content ≡ true → one_line (take post_size content) ≡ true
all-cut content flat = all-take (λ c. not (c == 10)) post_size content flat

take-given :
    (content : Text) → post_size < length content → is_empty (take post_size content) ≡ false
unfolding take
take-given [] h = absurd (omega arith)
take-given (c ∷ content) h = refl

-- A first read of 1023 bytes, and what the server makes of the rest.
serve_reads-split :
    (hasher : Text → ℕ) (e : Engine) (indeterminate : ℤ) (reads : List Read) (sd : ℕ)
    (line first rest : Text) (s : App) (o : Outcome)
    → take line_size line ≡ first
    → drop line_size line ≡ rest
    → respond hasher (request e indeterminate first) sd s ≡ o
    → serve_reads hasher
        (record { size = line_size; engine = e; indeterminate = indeterminate } ∷ reads)
        sd
        line
        s
      ≡ ((serve_reads hasher reads sd rest o.0).0, o.1 ++ (serve_reads hasher reads sd rest o.0).1)
unfolding serve_reads
serve_reads-split hasher e indeterminate reads sd line first rest s o a b c = rw (a, b, c) refl

module _ (content : Text) (flat : one_line content ≡ true) (long : post_size < length content) where
  post_text-one_line : (n : ℕ) → n ≤ 2 → one_line (post_text (pos n) content) ≡ true
  unfolding int_to_string all
  post_text-one_line zero h = flat
  post_text-one_line (suc zero) h = flat
  post_text-one_line (suc (suc zero)) h = flat
  post_text-one_line (suc (suc (suc n))) h = absurd (omega arith)

  post_text-nonzero :
      (n : ℕ)
      → n ≤ 2
      → all is_nonzero (take post_size content) ≡ true
      → all is_nonzero (post_text (pos n) (take post_size content)) ≡ true
  unfolding int_to_string all
  post_text-nonzero zero h clean = clean
  post_text-nonzero (suc zero) h clean = clean
  post_text-nonzero (suc (suc zero)) h clean = clean
  post_text-nonzero (suc (suc (suc n))) h clean = absurd (omega arith)

  post_text-full :
      (n : ℕ)
      → n ≤ 2
      → full_command (post_text (pos n) content) ≡ post_text (pos n) content ++ newline
  unfolding full_command
  post_text-full n h =
      rw (ends_line-one_line (post_text (pos n) content) (post_text-one_line n h)) refl

  take-post_text :
      (n : ℕ)
      → n ≤ 2
      → take line_size (post_text (pos n) content ++ newline)
        ≡ post_text (pos n) (take post_size content)
  unfolding int_to_string take
  take-post_text zero h =
      ap (post_text (pos 0)) (take-append post_size content newline (omega arith))
  take-post_text (suc zero) h =
      ap (post_text (pos 1)) (take-append post_size content newline (omega arith))
  take-post_text (suc (suc zero)) h =
      ap (post_text (pos 2)) (take-append post_size content newline (omega arith))
  take-post_text (suc (suc (suc n))) h = absurd (omega arith)

  drop-post_text :
      (n : ℕ)
      → n ≤ 2
      → drop line_size (post_text (pos n) content ++ newline) ≡ drop post_size content ++ newline
  unfolding int_to_string drop
  drop-post_text zero h = drop-append post_size content newline (omega arith)
  drop-post_text (suc zero) h = drop-append post_size content newline (omega arith)
  drop-post_text (suc (suc zero)) h = drop-append post_size content newline (omega arith)
  drop-post_text (suc (suc (suc n))) h = absurd (omega arith)

  -- A post of one line with more than 1009 bytes does not fit into one read of the server. If the
  -- first read takes its 1023 bytes, then the server executes a post that is cut off behind 1009
  -- bytes of the text, and reads the rest of the text as the line of another command, whose
  -- response stands behind that to the post. The part in front has no zero byte and does not end
  -- with a carriage return.
  pub serve_reads-long_post :
      (hasher : Text → ℕ) (e : Engine) (indeterminate : ℤ) (reads : List Read) (n sd : ℕ) (s : App)
      → n ≤ 2
      → all is_nonzero (take post_size content) ≡ true
      → trim_end (take post_size content) ≡ take post_size content
      → serve_reads hasher
          (record { size = line_size; engine = e; indeterminate = indeterminate } ∷ reads)
          sd
          (full_command (post_text (pos n) content))
          s
        ≡ (
          (serve_reads hasher reads sd
              (drop post_size content ++ newline)
              (execute hasher e (Command.create_post (pos n) (take post_size content)) sd s).0).0,
          (execute hasher e (Command.create_post (pos n) (take post_size content)) sd s).1
              ++ (serve_reads hasher reads sd
                  (drop post_size content ++ newline)
                  (execute hasher e
                    (Command.create_post (pos n) (take post_size content))
                    sd
                    s).0).1,
        )
  serve_reads-long_post hasher e indeterminate reads n sd s small clean ended =
      let cut = take post_size content in
      serve_reads-split hasher e indeterminate reads sd (full_command (post_text (pos n) content))
        (post_text (pos n) cut) (drop post_size content ++ newline) s
        (execute hasher e (Command.create_post (pos n) cut) sd s)
        (ap (take line_size) (post_text-full n small) ∙ take-post_text n small)
        (ap (drop line_size) (post_text-full n small) ∙ drop-post_text n small)
        (respond_of_input hasher (request e indeterminate (post_text (pos n) cut))
          (post_text (pos n) cut) (Command.create_post (pos n) cut) sd s
          (buffer_input-clean (post_text (pos n) cut) (post_text-nonzero n small clean) (
            trim_end-behind (text "create_post ") _ (beside-is_empty (int_to_string (pos n)) _)
              (trim_end-beside (int_to_string (pos n)) cut (take-given content long) ended)))
          (create-create_post indeterminate n cut small (all-cut content flat)))
