-- ===== src/Client/Exchange.antt =====
-- qt_client/NetworkClient.cpp against server/server.cpp: a command of the client, what the server
-- reads of its line and answers, and what of the answers recv delivers. How much each call of read
-- and recv takes is up to the system.
use mathlib.Core.List.{append-nil}
use cpp_social_network_clien.Common.{
  take-all, drop-all, drop-long, take-append, all-take, all-drop, ℕ, ℤ, pos, true, false, ◌≡◌, refl,
  ap, ◌∙◌, some, List, [], ◌∷◌, ◌++◌, Text, newline, arith, nat_eq, length, take, drop, ◌≤◌, ◌<◌,
  all, if_both, is_empty, Option, none, ◌&&◌, ◌==◌, if◌then◌else◌, leb,
}
use cpp_social_network_clien.Stream.{take_while}
use cpp_social_network_clien.Stream.Words.{take_while-all}
use cpp_social_network_clien.Database.{Engine}
use cpp_social_network_clien.App.{App, Outcome}
use cpp_social_network_clien.Server.{Request, bytes, respond}
use cpp_social_network_clien.Server.Lines.{is_nonzero, respond_line_end}
use cpp_social_network_clien.Client.Connection.{
  NetworkClient, send_command, full_command, ends_line, is_positive, is_connected,
}

-- sizeof(buffer) - 1
abbrev pub buffer_size : ℕ
buffer_size = 2047

-- The client, the state of the server, and the bytes that the server has sent and the client has
-- not read.
pub record Link : Type 0 where
  pub client : NetworkClient
  pub app : App
  pub unread : Text

-- BUFFER_SIZE - 1, the most that one call of read takes.
abbrev pub line_size : ℕ
line_size = 1023

-- Some bytes as the server receives them.
abbrev pub request : Engine → ℤ → Text → Request
request e indeterminate line = record {
  received = bytes line;
  engine = e;
  indeterminate = indeterminate;
}

-- As many as asked for, up to a limit.
abbrev at_most : ℕ → ℕ → ℕ
at_most limit n = if leb n limit then n else limit

-- One call of read: how many bytes it takes, of at most 1023, and what is given to the command that
-- is made of it.
pub record Read : Type 1 where
  pub size : ℕ
  pub engine : Engine
  pub indeterminate : ℤ

-- What the system does during one call of sendCommand: what send returns, the calls of read in
-- which the server gets the line, and how many bytes recv delivers, of at most 2047; 0 if it fails.
pub record Wire : Type 1 where
  pub sent : ℤ
  pub reads : List Read
  pub received : ℕ

-- The server reads what has arrived and answers each piece, as if it were a line.
unfoldable pub serve_reads : (Text → ℕ) → List Read → ℕ → Text → App → Outcome
unfolding respond take drop
serve_reads hasher [] sd line s = (s, [])
serve_reads hasher (r ∷ reads) sd line s =
    let (app, response) =
      respond hasher (request r.engine r.indeterminate (take (at_most line_size r.size) line)) sd
        s in
    let (last, responses) =
      serve_reads hasher reads sd (drop (at_most line_size r.size) line) app in
    (last, response ++ responses)

abbrev pub delivered : ℕ → Text → Option Text
delivered n arrived = if n == 0 then none else some (take (at_most buffer_size n) arrived)

-- One call of sendCommand: the link afterwards, and what it returns.
unfoldable pub exchange : (Text → ℕ) → Wire → ℕ → Text → Link → Link × Text
unfolding send_command full_command serve_reads take drop is_connected
exchange hasher w sd cmd link =
    let (app, responses) = serve_reads hasher w.reads sd (full_command cmd) link.app in
    let arrived = link.unread ++ responses in
    let (client, answer) = send_command w.sent (delivered w.received arrived) link.client in
    if is_connected link.client && is_positive w.sent
    then (
      record { client = client; app = app; unread = drop (at_most buffer_size w.received) arrived },
      answer,
    )
    else (record link { client = client }, answer)

-- The server gets a line of at most 1023 bytes in one call of read.
abbrev pub one_read : Engine → ℤ → List Read
one_read e indeterminate =
    record { size = line_size; engine = e; indeterminate = indeterminate } ∷ []

-- The line is sent whole and read at once; then `n` bytes are delivered.
abbrev pub whole : Engine → ℤ → Text → ℕ → Wire
whole e indeterminate cmd n = record {
  sent = pos (length (full_command cmd));
  reads = one_read e indeterminate;
  received = n;
}

-- A client that has read all that was sent to it.
abbrev pub fresh : NetworkClient → App → Link
fresh client s = record { client = client; app = s; unread = [] }

at_most_lem : (limit n : ℕ) → n ≤ limit → at_most limit n ≡ n
at_most_lem limit n h = ground arith

length-full_command : (cmd : Text) → is_positive (pos (length (full_command cmd))) ≡ true
unfolding full_command ends_line
length-full_command [] = refl
length-full_command (c ∷ cmd) = ground arith

-- A line that fits into the buffer of the server is answered once.
pub serve_reads-one_read :
    (hasher : Text → ℕ) (e : Engine) (indeterminate : ℤ) (line : Text) (sd : ℕ) (s : App)
    → length line ≤ line_size
    → serve_reads hasher (one_read e indeterminate) sd line s
      ≡ respond hasher (request e indeterminate line) sd s
unfolding serve_reads
serve_reads-one_read hasher e indeterminate line sd s fits =
    rw (take-all line_size line fits, append-nil) refl

module _ (hasher : Text → ℕ) (e : Engine) (indeterminate : ℤ) (sd : ℕ) where
  -- What the server does with the line of a command.
  abbrev pub outcome : Text → App → Outcome
  outcome cmd s = respond hasher (request e indeterminate (full_command cmd)) sd s

  exchange_lem :
      (cmd : Text) (n : ℕ) (link : Link)
      → is_connected link.client ≡ true
      → length (full_command cmd) ≤ line_size
      → 0 < n
      → n ≤ buffer_size
      → exchange hasher (whole e indeterminate cmd n) sd cmd link ≡ (
        record {
          client = link.client;
          app = (outcome cmd link.app).0;
          unread = drop n (link.unread ++ (outcome cmd link.app).1);
        },
        take_while is_nonzero (take n (link.unread ++ (outcome cmd link.app).1)),
      )
  unfolding exchange send_command is_connected serve_reads
  exchange_lem cmd n link up fits some_bytes small =
      rw (at_most_lem buffer_size n small, take-all line_size (full_command cmd) fits, append-nil)
        (ground (arith, length-full_command cmd))

  -- What is behind a line does not matter.
  pub outcome_line :
      (cmd : Text) (s : App)
      → all is_nonzero cmd ≡ true
      → outcome cmd s ≡ respond hasher (request e indeterminate cmd) sd s
  unfolding full_command
  outcome_line cmd s clean =
      if_both
        (λ (line : Text).
          respond hasher (request e indeterminate line) sd s
          ≡ respond hasher (request e indeterminate cmd) sd s)
        (ends_line cmd) cmd (cmd ++ newline) (λ _. refl)
        (λ _. respond_line_end hasher e indeterminate cmd newline sd s clean (unfold all in refl))

  received_lem :
      (o : Outcome) (client : NetworkClient)
      → all is_nonzero o.1 ≡ true
      → ◌≡◌ {A = Link × Text}
          (
            record { client = client; app = o.0; unread = drop (length o.1) o.1 },
            take_while is_nonzero (take (length o.1) o.1),
          )
          (record { client = client; app = o.0; unread = [] }, o.1)
  received_lem o client nonzero =
      rw
        (
          take-all (length o.1) o.1 (omega arith),
          drop-all (length o.1) o.1 (omega arith),
          take_while-all is_nonzero o.1 nonzero,
        )
        refl

  -- On a connection that works and has nothing left to read, a command whose line has at most 1023
  -- bytes, is read whole, and holds no zero byte is answered by sendCommand with the response of
  -- the server to the line, if that is not empty, has at most 2047 bytes, none of them zero, and is
  -- delivered whole; the command has had its effect on the server, and nothing is left again.
  pub exchange_answer :
      (cmd : Text) (client : NetworkClient) (s : App)
      → is_connected client ≡ true
      → all is_nonzero cmd ≡ true
      → length (full_command cmd) ≤ line_size
      → 0 < length (respond hasher (request e indeterminate cmd) sd s).1
      → length (respond hasher (request e indeterminate cmd) sd s).1 ≤ buffer_size
      → all is_nonzero (respond hasher (request e indeterminate cmd) sd s).1 ≡ true
      → exchange hasher
          (whole e indeterminate cmd (length (respond hasher (request e indeterminate cmd) sd s).1))
          sd
          cmd
          (fresh client s)
        ≡ (
          record {
            client = client;
            app = (respond hasher (request e indeterminate cmd) sd s).0;
            unread = [];
          },
          (respond hasher (request e indeterminate cmd) sd s).1,
        )
  exchange_answer cmd client s up clean fits given short nonzero =
      exchange_lem cmd _ (fresh client s) up fits given short
      ∙ rw (outcome_line cmd s clean)
          (received_lem (respond hasher (request e indeterminate cmd) sd s) client nonzero)

  -- If the response to a command has more than 2047 bytes, then some of it is left, however many
  -- bytes recv delivers, and sendCommand answers the next command with bytes of that rest, if recv
  -- delivers no more than the rest has. The lines of both commands have at most 1023 bytes and are
  -- read whole.
  pub exchange_stale :
      (cmd next : Text) (n m : ℕ) (client : NetworkClient) (s : App)
      → is_connected client ≡ true
      → length (full_command cmd) ≤ line_size
      → length (full_command next) ≤ line_size
      → all is_nonzero (outcome cmd s).1 ≡ true
      → buffer_size < length (outcome cmd s).1
      → 0 < n
      → n ≤ buffer_size
      → 0 < m
      → m ≤ buffer_size
      → m ≤ length (drop n (outcome cmd s).1)
      → (is_empty (drop n (outcome cmd s).1) ≡ false)
        × ((exchange hasher
              (whole e indeterminate next m)
              sd
              next
              (exchange hasher (whole e indeterminate cmd n) sd cmd (fresh client s)).0).1
            ≡ take m (drop n (outcome cmd s).1))
  exchange_stale cmd next n m client s up fits fits_next clean long some_n small some_m small_m
        left =
      (
        drop-long n (outcome cmd s).1 (omega arith),
        ap (λ (r : Link × Text). (exchange hasher (whole e indeterminate next m) sd next r.0).1)
              (exchange_lem cmd n (fresh client s) up fits some_n small)
            ∙ ap (λ (r : Link × Text). r.1)
                (exchange_lem next m
                  (record {
                    client = client;
                    app = (outcome cmd s).0;
                    unread = drop n (outcome cmd s).1;
                  })
                  up fits_next some_m small_m)
            ∙ ap (take_while is_nonzero) (take-append m (drop n (outcome cmd s).1) _ left)
            ∙ take_while-all is_nonzero (take m (drop n (outcome cmd s).1))
                (all-take is_nonzero m _ (all-drop is_nonzero n (outcome cmd s).1 clean)),
      )
