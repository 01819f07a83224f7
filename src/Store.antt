-- ===== src/Store.antt =====
-- internal/store/schema.sql and the row types of internal/store/store.go: the tables of oakd's
-- SQLite database as lists of rows. A statement that the schema's constraints refuse is an error;
-- the engine itself is taken not to fail. The single connection runs one statement or transaction
-- at a time, so each operation of the child modules is one step.
pub mod Apps
pub mod Releases
pub mod Machines
pub mod Ipam
pub mod Subnets
pub mod Secrets
pub mod Volumes
pub mod WellFormed
pub mod Ops
use oakberryio.Prelude.{ℕ, Option, none, some, List, [], ◌∷◌, Text, t}

-- The columns node_id and created_at of apps are never read.
pub record App : Type 0 where
  pub name : Text
  pub config : Text
  pub owner : Text

pub record Release : Type 0 where
  pub id : ℕ
  pub app : Text
  pub image : Text
  pub rootfs : Text
  pub node_id : Text
  pub cmd : Text
  pub env : Text
  pub workdir : Text
  pub created_at : ℕ

-- CHECK(state IN ('starting','running','stopped','failed'))
pub data MachineState : Type 0 where
  starting running stopped failed : MachineState

pub record Machine : Type 0 where
  pub id : Text
  pub app : Text
  pub release_id : ℕ
  pub node_id : Text
  pub ip : Text
  pub tap : Text
  pub state : MachineState
  pub pid : Option ℕ
  pub created_at : ℕ

pub record Volume : Type 0 where
  pub name : Text
  pub app : Text
  pub path : Text
  pub size_gb : ℕ
  pub node_id : Text

pub record Secret : Type 0 where
  pub app : Text
  pub key : Text
  pub ciphertext : Text

pub record TenantSubnet : Type 0 where
  pub owner : Text
  pub idx : ℕ

-- Each table holds its newest row first.
pub record Db : Type 0 where
  pub apps : List App
  pub releases : List Release
  pub machines : List Machine
  pub volumes : List Volume
  pub secrets : List Secret
  pub tenant_subnets : List TenantSubnet

-- A new database: schema.sql seeds the admin subnet.
abbrev pub fresh : Db
fresh = record {
  apps = [];
  releases = [];
  machines = [];
  volumes = [];
  secrets = [];
  tenant_subnets = record { owner = t ""; idx = 0 } ∷ [];
}

abbrev pub local : Text
local = t "local"
