-- ===== src/Session/Agent.antt =====
-- handleSSHConn of cmd/oak-init/agent.go.
use oakberryio.Prelude.{ℕ, Bool, Option, none, some, List, [], ◌∷◌, Text, t, if◌then◌else◌}
use oakberryio.Prelude.Results.{ok, err}
use oakberryio.Mmds.{Guest}
use oakberryio.Init.Env.{child_env}
use oakberryio.Session.Vsock.{read_line}

pub record SshHeader : Type 0 where
  pub cmd : List Text
  pub rows : ℕ
  pub cols : ℕ

-- A command on a pseudo-terminal: its arguments, environment, directory and size, and the bytes that
-- are copied to its terminal.
pub record Command : Type 0 where
  pub argv : List Text
  pub env : List Text
  pub dir : Text
  pub rows : ℕ
  pub cols : ℕ
  pub typed : Text

pub data Served : Type 0 where
  -- the connection ended before the header
  no_header : Served
  -- "error: invalid request: ...", and the error of a command that does not start
  invalid not_started : Served
  runs : Command → Served

unfoldable pub argv_of : List Text → List Text
argv_of [] = t "/bin/sh" ∷ []
argv_of (c ∷ cs) = c ∷ cs

-- `unmarshal` is json.Unmarshal into an sshHeader, and `starts` whether pty.StartWithSize succeeds.
module _ (unmarshal : Text → Option SshHeader) (starts : Command → Bool) where
  abbrev started_or : Command → Served
  started_or c = if starts c then runs c else not_started

  abbrev with_header : Guest → Text → Option SshHeader → Served
  with_header guest left none = invalid
  with_header guest left (some hdr) = started_or (record {
    argv = argv_of hdr.cmd;
    env = child_env guest;
    dir = guest.working_dir;
    rows = hdr.rows;
    cols = hdr.cols;
    typed = left;
  })

  -- What follows the header's line goes to the terminal, read ahead or not.
  unfoldable pub handle_ssh_conn : Guest → Text → Served
  handle_ssh_conn guest input = elim (read_line input) [
    | err e ↦ no_header
    | ok (line, left) ↦ with_header guest left (unmarshal line)
  ]
