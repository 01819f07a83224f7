-- ===== src/Session/Reaches.antt =====
-- An oak ssh session from end to end: the command line, the daemon's bridge, and the agent.
use oakberryio.Prelude.{
  ◌≡◌, ◌∙◌, ◌⊎◌, ap, inl, inr, ◌<◌, length, refl, arith, ℕ, Bool, true, false, Option, some, List,
  [], ◌∷◌, ◌++◌, Text, t, nat_eq, text_eq,
}
use mathlib.Core.List.{append_assoc}
use oakberryio.Prelude.Results.{ok}
use oakberryio.Mmds.{Guest}
use oakberryio.Init.Env.{child_env}
use oakberryio.Deploy.GuestEnv.{has_prefix}
use oakberryio.Cli.Lines.{newline, unlines, has_newline}
use oakberryio.Text.Trim.{fields}
use oakberryio.Cli.Ssh.{open_stream, says_ok, open_stream-head}
use oakberryio.Oak.Shell.{Shell}
use oakberryio.Oak.Sessions.{size_of, session}
use oakberryio.Session.Vsock.{
  Conn, Turn, Socket, read_line, accepted, dial_vsock, bridge, connect_line, switched, serve_ssh,
  ssh_agent_port,
}
use oakberryio.Session.Relay.{Drained, bridge-Relayed, split_head}
use oakberryio.Session.Agent.{SshHeader, Command, runs, argv_of, handle_ssh_conn}

read_line-line :
    (l s : Text) → has_newline l ≡ false → read_line (l ++ newline ∷ s) ≡ ok (l ++ newline ∷ [], s)
unfolding read_line has_newline
read_line-line [] s h = ground arith
read_line-line (c ∷ l) s h = ground (arith, read_line-line l s)

-- Firecracker answers the connection with a line "OK <host port>", and then sends what the guest sends.
abbrev pub answering : Text → Text → Socket
answering port output = record { takes = true; input = (t "OK " ++ port) ++ newline ∷ output }

dial_vsock-unread :
    (dial : Text → Option Socket) (path port output : Text) (agent_port : ℕ)
    → dial path ≡ some (answering port output)
    → has_newline port ≡ false
    → dial_vsock dial path agent_port
      ≡ ok (record { written = connect_line agent_port; unread = output })
unfolding dial_vsock accepted has_newline has_prefix nat_eq
dial_vsock-unread dial path port output agent_port there whole =
    rw (there, dial_vsock) (rw (read_line-line (t "OK " ++ port) output whole) refl)

-- What the agent is asked to run
abbrev pub command_of : Guest → SshHeader → Text → Command
command_of guest hdr typed = record {
  argv = argv_of hdr.cmd;
  env = child_env guest;
  dir = guest.working_dir;
  rows = hdr.rows;
  cols = hdr.cols;
  typed = typed;
}

-- The header that oak writes, and what it means
abbrev pub header_line : Shell → List Text → Text
header_line sh command =
    sh.write_header command (size_of sh sh.terminal).0 (size_of sh sh.terminal).1

abbrev pub header_for : Shell → List Text → SshHeader
header_for sh command = record {
  cmd = command;
  rows = (size_of sh sh.terminal).0;
  cols = (size_of sh sh.terminal).1;
}

agent_runs :
    (unmarshal : Text → Option SshHeader) (starts : Command → Bool) (guest : Guest)
    (head typed : Text) (hdr : SshHeader)
    → has_newline head ≡ false
    → unmarshal (head ++ newline ∷ []) ≡ some hdr
    → starts (command_of guest hdr typed) ≡ true
    → handle_ssh_conn unmarshal starts guest ((head ++ newline ∷ []) ++ typed)
      ≡ runs (command_of guest hdr typed)
unfolding handle_ssh_conn
agent_runs unmarshal starts guest head typed hdr whole reads begins =
    rw (append_assoc head (newline ∷ []) typed)
      (rw (read_line-line head typed whole, handle_ssh_conn) (rw reads (rw begins refl)))

-- The head of the response leaves what the guest sends to the caller.
open_stream-switched : (output : Text) → open_stream (switched ++ output) ≡ ok output
unfolding unlines has_newline says_ok fields nat_eq text_eq
open_stream-switched output =
    open_stream-head (t "HTTP/1.1 200 OK" ++ 13 ∷ []) [] output refl refl tt

-- What a session has carried when the bridge has ended, or so far: `sent` is all that oak would write,
-- `output` all that the guest would, and `typed` is what follows the header in `sent`.
pub record Carried (runs_with : Text → Text → Type 0) (header sent typed output : Text)
    (client vsock : Conn) : Type 0 where
  pub up : Text
  pub down : Text
  pub up_is_next : sent ≡ up ++ client.unread
  pub up_arrived : vsock.written ≡ connect_line ssh_agent_port ++ up
  pub down_is_next : output ≡ down ++ vsock.unread
  pub down_shown : open_stream client.written ≡ ok down
  pub agent :
      (length up < length header)
      ⊎ ((arrived : Text) × (typed ≡ arrived ++ client.unread) × runs_with up arrived)

module _ (sh : Shell) (unmarshal : Text → Option SshHeader) (starts : Command → Bool) where
  -- The agent, given these bytes, runs the command with the bytes typed that have arrived.
  abbrev pub RunsWith : Guest → List Text → Text → Text → Type 0
  RunsWith guest command up arrived =
      handle_ssh_conn unmarshal starts guest up
      ≡ runs (command_of guest (header_for sh command) arrived)

  -- An oak ssh session from end to end, for any order of the turns of the bridge's two copies and
  -- wherever the first of them ends: what oakd has written to the guest behind its CONNECT line is the
  -- front of what oak sends, and what oak reads behind the head of the response is the front of what the
  -- guest sends, also of what stood right behind Firecracker's answer; nothing else of the two is lost
  -- or swapped, and the copy that ended at the end of its side has brought over all of that side. Where
  -- the whole header has got to the guest, the agent runs the command that was given (a shell, where
  -- there was none), with the app's environment and directory and the size of oak's terminal, and the
  -- typed bytes that have got through. The header is one line that json reads back as it was written,
  -- the command starts, and Firecracker answers with a line "OK" and a port.
  pub session-reaches :
      (dial : Text → Option Socket) (guest : Guest) (command : List Text)
      (path port output typed : Text) (turns : List Turn)
      → has_newline (header_line sh command) ≡ false
      → unmarshal (header_line sh command ++ newline ∷ []) ≡ some (header_for sh command)
      → ((s : Text) → starts (command_of guest (header_for sh command) s) ≡ true)
      → has_newline port ≡ false
      → dial path ≡ some (answering port output)
      → (client : Conn) × (vsock : Conn) × (ended : Option Turn) × (serve_ssh dial path
            ((session sh command output).sent ++ typed)
            turns
          ≡ ok ((client, vsock), ended))
        × Drained ended (client, vsock)
        × Carried
            (RunsWith guest command)
            (session sh command output).sent
            ((session sh command output).sent ++ typed)
            typed
            output
            client
            vsock
  unfolding serve_ssh session
  session-reaches dial guest command path port output typed turns whole reads begins port_whole
        there =
      let header = header_line sh command ++ newline ∷ [] in
      let before : Conn × Conn = (
        record { written = switched; unread = header ++ typed },
        record { written = connect_line ssh_agent_port; unread = output },
      ) in
      let (k, drained) = bridge-Relayed turns before in
      let (client, vsock) = (bridge turns before).0 in
      (
        client,
        vsock,
        (bridge turns before).1,
        rw (dial_vsock-unread dial path port output ssh_agent_port there port_whole) refl,
        drained,
        record {
          up = k.up;
          down = k.down;
          up_is_next = k.taken_up;
          up_arrived = k.written_up;
          down_is_next = k.taken_down;
          down_shown = ap open_stream k.written_down ∙ open_stream-switched k.down;
          agent = elim (split_head header typed k.up client.unread k.taken_up) [
            | inl short ↦ inl short
            | inr (arrived, same, left) ↦ inr (
              arrived,
              left,
              ap (handle_ssh_conn unmarshal starts guest) same
                  ∙ agent_runs unmarshal starts guest (header_line sh command) arrived
                      (header_for sh command) whole reads (begins arrived),
            )
          ];
        },
      )
