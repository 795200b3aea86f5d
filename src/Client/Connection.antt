-- ===== src/Client/Connection.antt =====
-- qt_client/NetworkClient.cpp: the connection of the Qt client. What the system calls return is an
-- argument; `descriptors` are the sockets that the process has open.
use cpp_social_network_clien.Common.{
  ℤ, pos, negsuc, Bool, true, false, not, ◌&&◌, ◌≡◌, refl, Option, none, some, List, [], ◌∷◌, ◌++◌,
  Text, text, newline, arith, ◌==◌, int_eq, nat_eq, if◌then◌else◌, select, inl, ◌⊎◌,
}
use cpp_social_network_clien.Stream.{take_while}

pub record NetworkClient : Type 0 where
  pub sock : ℤ
  pub descriptors : List ℤ

abbrev pub new_client : NetworkClient
new_client = record { sock = negsuc 0; descriptors = [] }

abbrev pub is_positive : ℤ → Bool
is_positive (pos n) = not (n == 0)
is_positive (negsuc n) = false

abbrev pub below_zero : ℤ → Bool
below_zero (pos n) = false
below_zero (negsuc n) = true

unfoldable pub is_connected : NetworkClient → Bool
is_connected c = not (c.sock == negsuc 0)

-- close(sock); sock = -1;
unfoldable pub close_socket : NetworkClient → NetworkClient
close_socket c = record {
  sock = negsuc 0;
  descriptors = select (λ d. not (d == c.sock)) c.descriptors;
}

-- What socket, inet_pton and connect return.
unfoldable pub connect_to_server : ℤ → ℤ → ℤ → NetworkClient → NetworkClient × Bool
unfolding close_socket
connect_to_server opened parsed connected c =
    let with_socket : NetworkClient = record {
      sock = opened;
      descriptors = opened ∷ c.descriptors;
    } in
    if not (c.sock == negsuc 0)
    then (c, true)
    else if below_zero opened
    then (record c { sock = opened }, false)
    else if not (is_positive parsed)
    then (close_socket with_socket, false)
    else if below_zero connected
    then (close_socket with_socket, false)
    else (with_socket, true)

unfoldable pub disconnect_client : NetworkClient → NetworkClient
unfolding close_socket
disconnect_client c = if not (c.sock == negsuc 0) then close_socket c else c

unfoldable pub reconnect : ℤ → ℤ → ℤ → NetworkClient → NetworkClient
unfolding connect_to_server disconnect_client
reconnect opened parsed connected c =
    (connect_to_server opened parsed connected (disconnect_client c)).0

-- fullCmd.back() == '\n'
unfoldable pub ends_line : Text → Bool
ends_line [] = false
ends_line (c ∷ []) = c == 10
ends_line (c ∷ d ∷ s) = ends_line (d ∷ s)

unfoldable pub full_command : Text → Text
unfolding ends_line
full_command cmd = if ends_line cmd then cmd else cmd ++ newline

-- `sent` is what send returns, and `received` what recv delivers, at most 2047 bytes; it is `none`
-- if recv returns 0 or -1. The string that is made of the buffer ends at the first zero byte.
unfoldable pub send_command : ℤ → Option Text → NetworkClient → NetworkClient × Text
unfolding disconnect_client take_while
send_command sent received c =
    if c.sock == negsuc 0
    then (c, text "ERROR Not connected\n")
    else if not (is_positive sent)
    then (disconnect_client c, text "ERROR Send failed\n")
    else elim received [
      | none ↦ (c, text "ERROR Server did not respond\n")
      | some buffer ↦ (c, take_while (λ c. not (c == 0)) buffer)
    ]

-- Exactly the socket that is in use is open.
abbrev pub OwnsSocket : NetworkClient → Type 0
OwnsSocket c =
    ((c.sock ≡ negsuc 0) × (c.descriptors ≡ []))
    ⊎ ((below_zero c.sock ≡ false) × (c.descriptors ≡ c.sock ∷ []))

-- socket reports a failure as -1.
abbrev pub SocketResult : ℤ → Type 0
SocketResult opened = (below_zero opened ≡ false) ⊎ (opened ≡ negsuc 0)

disconnect_client-OwnsSocket : (c : NetworkClient) → OwnsSocket c → OwnsSocket (disconnect_client c)
unfolding disconnect_client select
disconnect_client-OwnsSocket c v = ground arith

connect_to_server-OwnsSocket :
    (opened parsed connected : ℤ) (c : NetworkClient)
    → SocketResult opened
    → OwnsSocket c
    → OwnsSocket (connect_to_server opened parsed connected c).0
unfolding connect_to_server select
connect_to_server-OwnsSocket opened parsed connected c r v = ground arith

-- The calls that the windows make, with what the system calls return.
pub data Reached : NetworkClient → Type 0 where
  started : Reached new_client
  to_server :
      {c : NetworkClient} (opened parsed connected : ℤ)
      → SocketResult opened
      → Reached c
      → Reached (connect_to_server opened parsed connected c).0
  answered :
      {c : NetworkClient} (sent : ℤ) (received : Option Text)
      → Reached c
      → Reached (send_command sent received c).0
  disconnected : {c : NetworkClient} → Reached c → Reached (disconnect_client c)
  reconnected :
      {c : NetworkClient} (opened parsed connected : ℤ)
      → SocketResult opened
      → Reached c
      → Reached (reconnect opened parsed connected c)

send_command-OwnsSocket :
    (sent : ℤ) (received : Option Text) (c : NetworkClient)
    → OwnsSocket c
    → OwnsSocket (send_command sent received c).0
unfolding send_command
send_command-OwnsSocket sent received c v = ground (arith, disconnect_client-OwnsSocket c v)

-- Whatever the system calls return, the client has exactly one socket open while it counts as
-- connected, and none otherwise: no descriptor is leaked.
pub Reached-OwnsSocket : {c : NetworkClient} → Reached c → OwnsSocket c
unfolding reconnect
Reached-OwnsSocket started = inl (refl, refl)
Reached-OwnsSocket (to_server {c} opened parsed connected r h) =
    connect_to_server-OwnsSocket opened parsed connected c r (Reached-OwnsSocket h)
Reached-OwnsSocket (answered {c} sent received h) =
    send_command-OwnsSocket sent received c (Reached-OwnsSocket h)
Reached-OwnsSocket (disconnected {c} h) = disconnect_client-OwnsSocket c (Reached-OwnsSocket h)
Reached-OwnsSocket (reconnected {c} opened parsed connected r h) =
    connect_to_server-OwnsSocket opened parsed connected (disconnect_client c) r
      (disconnect_client-OwnsSocket c (Reached-OwnsSocket h))

-- After a command the client counts as connected exactly if it did before and send reported
-- success: a server that does not answer any more leaves it connected.
pub send_command-connected :
    (sent : ℤ) (received : Option Text) (c : NetworkClient)
    → is_connected (send_command sent received c).0 ≡ (is_connected c && is_positive sent)
unfolding send_command is_connected disconnect_client close_socket
send_command-connected sent none c = ground arith
send_command-connected sent (some buffer) c = ground arith

-- connectToServer answers true exactly if the client is connected afterwards, and on a connection
-- that exists it makes no new one.
pub connect_to_server-connected :
    (opened parsed connected : ℤ) (c : NetworkClient)
    → SocketResult opened
    → (is_connected (connect_to_server opened parsed connected c).0
        ≡ (connect_to_server opened parsed connected c).1)
      × (is_connected c ≡ true → connect_to_server opened parsed connected c ≡ (c, true))
unfolding connect_to_server is_connected close_socket
connect_to_server-connected opened parsed connected c r = ground arith
