-- ===== src/Api.antt =====
-- internal/daemon/api.go: the HTTP API of oakd over the Deployer and the store. A handler takes the
-- state to a response and the state that it leaves. The words of an http.Error are not modelled.
pub mod Auth
pub mod Streams
pub mod Secrets
pub mod Volumes
pub mod Machines
pub mod Build
pub mod Panel
use oakberryio.Prelude.{ℕ, Bool, false, Option, none, some, List, [], Text, if◌then◌else◌}
use oakberryio.Prelude.Int.{ℤ}
use oakberryio.Prelude.Results.{Error}
use oakberryio.Appconfig.{Config, valid_name}
use oakberryio.Wire.{Response, Codec}
use oakberryio.Deploy.{Env, World}

-- The API's fields, and what its handlers ask of the host: age's encryption for the identity, the
-- file system, mkfs.ext4, and Firecracker's socket for a guest's vsock.
pub record Server : Type 0 where
  pub deployer : Env
  pub token : Text
  pub codec : Codec
  pub unmarshal_toml : Text → Config → Option Config
  -- the lines of an error's message: the first, and any others
  pub words : Error → World → Text × List Text
  pub encrypt : Text → Text → Option Text
  -- a log's bytes: all there are, or those that are there until the client goes
  pub read_log : Text → Option Text
  pub tail_log : Text → Option Text
  pub create_file : Text → Bool
  pub truncate : Text → ℤ → Bool
  pub format_volume : Text → Bool
  pub dial_vsock : Text → Bool

abbrev pub Handler : Type 0
Handler = World → Response × World

-- A response of this status and these bytes, in a state that stays.
unfoldable pub respond : ℕ → Text → Handler
respond status bytes w =
    (record { status = status; body = record { bytes = bytes; broken = false } }, w)

abbrev pub bad_request : ℕ
bad_request = 400

abbrev pub unauthorized : ℕ
unauthorized = 401

abbrev pub internal_error : ℕ
internal_error = 500

-- http.Error
abbrev pub refuse : ℕ → Handler
refuse status = respond status []

-- The test of the path's name that every handler of an app begins with
unfoldable pub for_app : Text → Handler → Handler
for_app name next w = if valid_name name then next w else refuse bad_request w

-- A body that decodes, or 400
abbrev pub decoded : {A : Type 0} → Option A → (A → Handler) → Handler
decoded none next = refuse bad_request
decoded (some a) next = next a
