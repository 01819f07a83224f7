-- ===== src/Wire.antt =====
-- What the client (internal/cli) and the API (internal/daemon/api.go) exchange: requests, responses
-- and the structs that travel as JSON. encoding/json is a parameter, `Codec`.
use oakberryio.Prelude.{ℕ, Bool, Option, some, ◌≡◌, List, Text}
use oakberryio.Prelude.Dict.{Dict}
use oakberryio.Prelude.Int.{ℤ}
use oakberryio.Store.{Machine}
use oakberryio.Store.Apps.{AppInfo}

pub data Method : Type 0 where
  get post put delete head : Method

-- What one read of a response's body gives: its bytes, and whether an error ended them.
pub record Body : Type 0 where
  pub bytes : Text
  pub broken : Bool

-- A header that is absent is the empty text, as http.Header.Get returns it.
pub record Request : Type 0 where
  pub method : Method
  pub path : Text
  pub query : Text
  pub authorization : Text
  pub dockerfile : Text
  pub build_args : Text
  pub body : Text

pub record Response : Type 0 where
  pub status : ℕ
  pub body : Body

pub record DeployBody : Type 0 where
  pub image : Text
  pub config : Text
  pub owner : Text

pub record ScaleBody : Type 0 where
  pub memory_mb : ℤ
  pub cpus : ℤ

pub record VolumeBody : Type 0 where
  pub name : Text
  pub size_gb : ℤ

pub record Codec : Type 0 where
  pub write_deploy : DeployBody → Text
  pub read_deploy : Text → Option DeployBody
  pub write_scale : ScaleBody → Text
  pub read_scale : Text → Option ScaleBody
  pub write_volume : VolumeBody → Text
  pub read_volume : Text → Option VolumeBody
  pub write_dict : Dict Text → Text
  pub read_dict : Text → Option (Dict Text)
  -- a JSON list of texts, and the same as the field "keys" of an object
  pub write_texts : List Text → Text
  pub read_texts : Text → Option (List Text)
  pub write_infos : List AppInfo → Text
  pub read_infos : Text → Option (List AppInfo)
  pub write_machines : List Machine → Text
  pub read_machines : Text → Option (List Machine)
  pub write_keys : List Text → Text
  pub read_keys : Text → Option (List Text)

-- What json.Marshal wrote, json.Unmarshal reads back.
pub record IsFaithful (c : Codec) : Type 0 where
  pub deploy : (b : DeployBody) → c.read_deploy (c.write_deploy b) ≡ some b
  pub scale : (b : ScaleBody) → c.read_scale (c.write_scale b) ≡ some b
  pub volume : (b : VolumeBody) → c.read_volume (c.write_volume b) ≡ some b
  pub dict : (d : Dict Text) → c.read_dict (c.write_dict d) ≡ some d
  pub texts : (l : List Text) → c.read_texts (c.write_texts l) ≡ some l
  pub infos : (l : List AppInfo) → c.read_infos (c.write_infos l) ≡ some l
  pub machines : (l : List Machine) → c.read_machines (c.write_machines l) ≡ some l
  pub keys : (l : List Text) → c.read_keys (c.write_keys l) ≡ some l
