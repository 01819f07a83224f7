-- ===== src/Tests/Sessions.antt =====
-- oak ssh web -- ls, with its input from a pipe.
use oakberryio.Prelude.{
  ◌≡◌, refl, true, Option, none, some, List, [], ◌∷◌, ◌++◌, Text, t, nat_eq, text_eq,
}
use oakberryio.Prelude.Results.{ok}
use oakberryio.Cli.Lines.{newline, has_newline}
use oakberryio.Cli.Ssh.{read_line}
use oakberryio.Oak.Context.{missing, end}
use oakberryio.Oak.Shell.{Shell}
use oakberryio.Oak.Sessions.{size_of, session}
use oakberryio.Session.Vsock.{Conn, Socket, Turn, from_client, from_guest, serve_ssh}
use oakberryio.Session.Relay.{Drained}
use oakberryio.Session.Agent.{SshHeader}
use oakberryio.Session.Reaches.{answering, Carried, RunsWith, session-reaches}
use oakberryio.Tests.Requests.{plain}
use oakberryio.Tests.Contexts.{moby}
use oakberryio.Tests.Hosts.{guest}

-- The header is the command's first word.
abbrev first_word : List Text → Text
first_word [] = t "sh"
first_word (c ∷ cs) = c

abbrev shell : Shell
shell = record {
  here = record {
    getenv = λ k. t "";
    home = some (t "/home/ann");
    read_file = λ path. none;
    valid_url = λ s. true;
    path_escape = λ s. s;
    send = λ request. none;
  };
  codec = plain;
  parse_int = λ s. none;
  tabulate = λ rows. [];
  state_text = λ state. t "running";
  unmarshal_toml = λ s cfg. none;
  moby = moby;
  ignore_file = missing;
  working_dir = end;
  write_tar = λ entries. t "";
  unix_time = 7;
  succeeds = λ words. true;
  host_of = λ url. t "unix";
  exchange = λ request. none;
  terminal = none;
  sets_raw = true;
  write_header = λ command rows cols. first_word command;
}

abbrev unmarshal : Text → Option SshHeader
unmarshal line = elim (read_line line) [
  | none ↦ none
  | some (word, left) ↦ some (record { cmd = word ∷ []; rows = 24; cols = 80 })
]

-- The guest's first byte, then four of oak, and the client closes early.
abbrev turns : List Turn
turns = from_guest ∷ from_client ∷ from_client ∷ from_client ∷ from_client ∷ from_client ∷ []

abbrev dial : Text → Option Socket
dial path = some (answering (t "1073741824") (t "a.txt"))

session-reaches_example :
    (client : Conn) × (vsock : Conn) × (ended : Option Turn) × (serve_ssh dial
        (t "/s/aa_vsock.sock")
        (t "ls" ++ newline ∷ t "y")
        turns
      ≡ ok ((client, vsock), ended))
    × Drained ended (client, vsock)
    × Carried
        (RunsWith shell unmarshal (λ command. true) guest (t "ls" ∷ []))
        (t "ls" ++ newline ∷ [])
        (t "ls" ++ newline ∷ t "y")
        (t "y")
        (t "a.txt")
        client
        vsock
unfolding session size_of has_newline read_line nat_eq
session-reaches_example =
    session-reaches shell unmarshal (λ command. true) dial guest (t "ls" ∷ [])
      (t "/s/aa_vsock.sock") (t "1073741824") (t "a.txt") (t "y") turns refl refl (λ s. refl) refl
      refl
