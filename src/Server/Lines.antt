-- ===== src/Server/Lines.antt =====
-- server/server.cpp: the end of a line, and what a client is answered.
use mathlib.Core.List.{append_assoc}
use cpp_social_network_clien.Common.{
  subst, false, is_empty, ℕ, ℤ, none, some, Bool, true, not, ◌||◌, ◌≡◌, refl, ap, sym, ◌∙◌, [], ◌∷◌,
  ◌++◌, Text, text, arith, all, all-append, all_mono, ◌==◌, nat_eq,
}
use cpp_social_network_clien.Stream.{is_space}
use cpp_social_network_clien.Stream.Words.{IsWord, take_while-all}
use cpp_social_network_clien.Database.{Engine}
use cpp_social_network_clien.Command.{Command}
use cpp_social_network_clien.App.{App, Outcome}
use cpp_social_network_clien.CommandFactory.{create}
use cpp_social_network_clien.CommandFactory.RoundTrip.{create-login}
use cpp_social_network_clien.Commands.{execute}
use cpp_social_network_clien.Commands.Account.{execute_login}
use cpp_social_network_clien.Server.{Request, bytes, trim_end, buffer_input, respond}

abbrev pub is_line_end : ℕ → Bool
is_line_end c = c == 10 || c == 13

abbrev pub is_nonzero : ℕ → Bool
is_nonzero c = not (c == 0)

trim_end-all : (t : Text) → all is_line_end t ≡ true → trim_end t ≡ []
unfolding trim_end all
trim_end-all [] h = refl
trim_end-all (c ∷ t) h = ground (arith, trim_end-all t)

trim_end-append : (s t : Text) → all is_line_end t ≡ true → trim_end (s ++ t) ≡ trim_end s
unfolding trim_end
trim_end-append [] t h = trim_end-all t h
trim_end-append (c ∷ s) t h = rw (trim_end-append s t h) refl

line_end-nonzero : (t : Text) → all is_line_end t ≡ true → all is_nonzero t ≡ true
line_end-nonzero t h = all_mono is_line_end is_nonzero t (λ c k. ground arith) h

buffer_input-append :
    (line end : Text)
    → all is_nonzero line ≡ true
    → all is_line_end end ≡ true
    → buffer_input (bytes (line ++ end)) ≡ buffer_input (bytes line)
unfolding buffer_input
buffer_input-append line end clean ends =
    ap trim_end (take_while-all is_nonzero (line ++ end) whole)
    ∙ trim_end-append line end ends
    ∙ ap trim_end (sym (take_while-all is_nonzero line clean))
  where
    whole : all is_nonzero (line ++ end) ≡ true
    whole = ground (arith, all-append is_nonzero line end, line_end-nonzero end)

-- A client may end a line, which holds no zero byte, with any newlines and carriage returns or
-- with none: the effect and the response are the same.
pub respond_line_end :
    (hasher : Text → ℕ) (e : Engine) (indeterminate : ℤ) (line end : Text) (sd : ℕ) (s : App)
    → all is_nonzero line ≡ true
    → all is_line_end end ≡ true
    → respond hasher
        (record { received = bytes (line ++ end); engine = e; indeterminate = indeterminate })
        sd
        s
      ≡ respond hasher
          (record { received = bytes line; engine = e; indeterminate = indeterminate })
          sd
          s
unfolding respond
respond_line_end hasher e indeterminate line end sd s clean ends =
    ap
      (λ (input : Text). elim (create indeterminate input) as (λ _. Outcome) [
        | none ↦ (s, text "ERROR Unknown command\n")
        | some command ↦ execute hasher e command sd s
      ])
      (buffer_input-append line end clean ends)

trim_end-unspaced : (w : Text) → all (λ c. not (is_space c)) w ≡ true → trim_end w ≡ w
unfolding trim_end all
trim_end-unspaced [] h = refl
trim_end-unspaced (c ∷ w) h = ground (arith, trim_end-unspaced w)

is_empty-append_right : (s w : Text) → is_empty w ≡ false → is_empty (s ++ w) ≡ false
is_empty-append_right [] w h = h
is_empty-append_right (c ∷ s) w h = refl

-- A line that ends with a word has nothing to trim.
pub trim_end-word : (s w : Text) → IsWord w → trim_end (s ++ w) ≡ s ++ w
unfolding trim_end
trim_end-word [] w v = trim_end-unspaced w v.unspaced
trim_end-word (c ∷ s) w v = rw (trim_end-word s w v, is_empty-append_right s w v.nonempty) refl

-- A line without a zero byte that ends with a word.
buffer_input-word :
    (s w end : Text)
    → IsWord w
    → all is_nonzero s ≡ true
    → all is_nonzero w ≡ true
    → all is_line_end end ≡ true
    → buffer_input (bytes ((s ++ w) ++ end)) ≡ s ++ w
buffer_input-word s w end v clean_s clean_w ends =
    buffer_input-append (s ++ w) end clean ends
    ∙ unfold buffer_input in
      (ap trim_end (take_while-all is_nonzero (s ++ w) clean) ∙ trim_end-word s w v)
  where
    clean : all is_nonzero (s ++ w) ≡ true
    clean = all-append is_nonzero s w ∙ rw (clean_s, clean_w) refl

pub respond_of_input :
    (hasher : Text → ℕ) (r : Request) (line : Text) (command : Command) (sd : ℕ) (s : App)
    → buffer_input r.received ≡ line
    → create r.indeterminate line ≡ some command
    → respond hasher r sd s ≡ execute hasher r.engine command sd s
unfolding respond
respond_of_input hasher r line command sd s read made =
    ap
      (λ (input : Text). elim (create r.indeterminate input) as (λ _. Outcome) [
        | none ↦ (s, text "ERROR Unknown command\n")
        | some command ↦ execute hasher r.engine command sd s
      ])
      read
    ∙ rw made refl

abbrev login_start : Text → Text
login_start user = text "login " ++ (user ++ 32 ∷ [])

login_start-nonzero :
    (user : Text) → all is_nonzero user ≡ true → all is_nonzero (login_start user) ≡ true
login_start-nonzero user clean =
    all-append is_nonzero (text "login ") (user ++ 32 ∷ [])
    ∙ unfold all in (all-append is_nonzero user (32 ∷ []) ∙ rw clean refl)

login_start_lem :
    (user pass : Text) → login_start user ++ pass ≡ text "login " ++ (user ++ 32 ∷ pass)
login_start_lem user pass = ap (λ (t : Text). text "login " ++ t) (append_assoc user (32 ∷ []) pass)

-- A line with a login, whose name and password are words without a zero byte, and any line end: the
-- client gets what the login command does with that name and password.
pub respond_login :
    (hasher : Text → ℕ) (e : Engine) (indeterminate : ℤ) (user pass end : Text) (sd : ℕ) (s : App)
    → IsWord user
    → IsWord pass
    → all is_nonzero user ≡ true
    → all is_nonzero pass ≡ true
    → all is_line_end end ≡ true
    → respond hasher
        (record {
          received = bytes ((text "login " ++ (user ++ 32 ∷ pass)) ++ end);
          engine = e;
          indeterminate = indeterminate;
        })
        sd
        s
      ≡ execute_login hasher e user pass sd s
respond_login hasher e indeterminate user pass end sd s u p clean_user clean_pass ends =
    respond_of_input hasher
      (record {
        received = bytes ((text "login " ++ (user ++ 32 ∷ pass)) ++ end);
        engine = e;
        indeterminate = indeterminate;
      })
      (text "login " ++ (user ++ 32 ∷ pass)) (Command.login user pass) sd s
      (subst (λ (line : Text). buffer_input (bytes (line ++ end)) ≡ line)
        (login_start_lem user pass)
        (buffer_input-word (login_start user) pass end p (login_start-nonzero user clean_user)
          clean_pass ends))
      (create-login indeterminate user pass u p)
    ∙ unfold execute in refl
