-- ===== src/Prelude/Results.antt =====
-- Go's `(T, error)`: a value, or the kind of the error. The words of a message are not modelled.

use mathlib.Core.Path.{◌≡◌, refl}
use mathlib.Core.Logic.{◌⊎◌, inl, inr}
use mathlib.Core.Option.{Option, none, some}
use oakberryio.Prelude.Int.{ℤ}

-- One kind for each way that a part fails; a `%w` keeps the kind of what it wraps.
pub data Error : Type 0 where
  -- the store: no such row; a constraint of the schema; an address range used up; a bad address
  not_found constraint no_free_ip no_free_subnet bad_ip : Error
  -- the codecs and the configuration
  bad_json bad_toml bad_name bad_domain bad_pair bad_size : Error
  -- what oakd asks of the host
  rootfs_build bridge_setup random_source mkdir_failed remove_failed start_failed : Error
  wait_failed no_exit_status set_identity decrypt_failed : Error
  release_exited : ℤ → Error
  -- a deploy
  unknown_volume health_timeout context_done tunnel_write tunnel_restart : Error
  no_command escapes_dir : Error
  -- what the client of the HTTP API reports
  request_failed bad_status read_failed remote_failed unexpected_line no_home no_token : Error
  -- what a handler of the HTTP API, a tar and a file of /proc give
  encrypt_failed file_failed bad_tar bad_counter : Error
  -- what oak-init meets
  call_failed child_not_started wait_error unreachable : Error
  -- the command line of oak
  bad_pattern bad_flag help_shown usage no_confirmation no_size docker_failed terminal_failed :
      Error
  -- a microVM on its host, and the daemon's start
  link_failed bad_gateway log_failed machine_failed stop_failed : Error
  dns_listen listen_failed store_failed bad_identity vsock_refused : Error

-- The Go value is the zero value beside an error, and is not looked at.
pub data Result {ℓ} (A : Type ℓ) : Type ℓ where
  err : Error → Result A
  ok : A → Result A

-- value, ok := m[key]; if !ok { return err }
abbrev pub from_option {ℓ} : {A : Type ℓ} → Error → Option A → Result A
from_option why (some value) = ok value
from_option why none = err why

-- if err != nil { return err }
infixl 10 ◌>>=◌ ◌>>◌
abbrev pub ◌>>=◌ {ℓ κ} : {A : Type ℓ} {B : Type κ} → Result A → (A → Result B) → Result B
err why >>= next = err why
ok value >>= next = next value

abbrev pub ◌>>◌ {ℓ κ} : {A : Type ℓ} {B : Type κ} → Result A → Result B → Result B
outcome >> next = outcome >>= λ ignored. next

pub Result-cases {ℓ} :
    {A : Type ℓ} (outcome : Result A)
    → ((why : Error) × (outcome ≡ err why)) ⊎ ((value : A) × (outcome ≡ ok value))
Result-cases (err why) = inl (why, refl)
Result-cases (ok value) = inr (value, refl)

-- Where the second part returned a value, the first did.
pub >>=-eq-ok {ℓ κ} :
    {A : Type ℓ} {B : Type κ} (outcome : Result A) (next : A → Result B) {last : B}
    → (outcome >>= next) ≡ ok last
    → (value : A) × (outcome ≡ ok value) × (next value ≡ ok last)
>>=-eq-ok (err why) next same = cc
>>=-eq-ok (ok value) next same = (value, refl, same)
