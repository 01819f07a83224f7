-- ===== src/Session/Vsock.antt =====
-- dialVsock and readLine of internal/daemon/ssh.go, and bridge with its two copies.
use oakberryio.Prelude.{
  ℕ, Option, none, some, List, [], ◌∷◌, ◌++◌, Text, t, ◌==◌, nat_eq, text_eq, if◌then◌else◌, Bool,
}
use oakberryio.Prelude.Results.{Result, ok, err, read_failed, vsock_refused, ◌>>=◌}
use oakberryio.Text.Decimal.{itoa}
use oakberryio.Deploy.GuestEnv.{has_prefix}
use oakberryio.Cli.Lines.{newline}

-- A connection: what was written on it, and what is still to be read.
pub record Conn : Type 0 where
  pub written : Text
  pub unread : Text

-- net.Dial of a Unix socket: whether it takes what is written, and all that comes back, up to its end
pub record Socket : Type 0 where
  pub takes : Bool
  pub input : Text

-- One byte at a time, up to the newline and with it.
unfoldable pub read_line : Text → Result (Text × Text)
read_line [] = err read_failed
read_line (c ∷ s) =
    let rest = read_line s in
    if c == newline then ok (c ∷ [], s) else rest >>= λ r. ok (c ∷ r.0, r.1)

abbrev pub ssh_agent_port : ℕ
ssh_agent_port = 10000

unfoldable pub connect_line : ℕ → Text
connect_line port = t "CONNECT " ++ (itoa port ++ newline ∷ [])

unfoldable pub accepted : ℕ → Text × Text → Result Conn
accepted port (reply, left) =
    if has_prefix (t "OK ") reply
    then ok (record { written = connect_line port; unread = left })
    else err vsock_refused

unfoldable pub dial_vsock : (Text → Option Socket) → Text → ℕ → Result Conn
dial_vsock dial path port = elim (dial path) [
  | none ↦ err vsock_refused
  | some socket ↦
      if socket.takes then read_line socket.input >>= accepted port else err vsock_refused
]

-- What happens next in bridge: one of its copies goes on, or a connection fails under one of them.
pub data Turn : Type 0 where
  from_client from_guest broken : Turn

-- The next byte of one side, on the other's connection; none where the side has ended or failed.
unfoldable pub copied : Turn → Conn × Conn → Option (Conn × Conn)
copied from_client (a, b) = elim a.unread [
  | [] ↦ none
  | c ∷ s ↦ some (record a { unread = s }, record b { written = b.written ++ c ∷ [] })
]
copied from_guest (a, b) = elim b.unread [
  | [] ↦ none
  | c ∷ s ↦ some (record a { written = a.written ++ c ∷ [] }, record b { unread = s })
]
copied broken ends = none

-- bridge: the two copies take turns in any order, which is given. The first that ends, at the end of
-- its side or by a failure, closes both connections, be there bytes of the other side left. The turn
-- that it ended in is returned, or none where the copies still run after the turns.
unfoldable pub bridge : List Turn → Conn × Conn → (Conn × Conn) × Option Turn
bridge [] ends = (ends, none)
bridge (turn ∷ turns) ends = elim (copied turn ends) [
  | none ↦ (ends, some turn)
  | some next ↦ bridge turns next
]

-- The head of the response, which handleSSH writes on the hijacked connection
abbrev pub switched : Text
switched = t "HTTP/1.1 200 OK" ++ (13 ∷ newline ∷ 13 ∷ newline ∷ [])

-- handleSSH from the running machine on, for the turns of the two copies: the client's connection and
-- the guest's, and the turn that has closed them.
unfoldable pub serve_ssh :
    (Text → Option Socket) → Text → Text → List Turn → Result ((Conn × Conn) × Option Turn)
serve_ssh dial path sent turns = dial_vsock dial path ssh_agent_port >>= λ vsock.
    ok (bridge turns (record { written = switched; unread = sent }, vsock))
