-- ===== src/Appconfig.antt =====
-- internal/appconfig/appconfig.go: the schema of oak.toml, and the tests of names and domains.
pub mod Names
use oakberryio.Prelude.{
  ℕ, zero, suc, Bool, true, false, ◌&&◌, ◌||◌, not, Option, none, some, List, [], ◌∷◌, Text, t, leb,
  ◌≡◌, refl, ◌==◌, nat_eq, text_eq, if◌then◌else◌,
}
use oakberryio.Prelude.Int.{ℤ, pos}
use oakberryio.Prelude.Dict.{Dict}
use oakberryio.Prelude.Results.{Result, ok, err, bad_toml, bad_name, bad_domain}

pub record Build : Type 0 where
  pub dockerfile : Text
  pub args : Dict Text

pub record Check : Type 0 where
  pub path : Text

pub record Service : Type 0 where
  pub internal_port : ℤ
  pub check : Check

pub record Mount : Type 0 where
  pub volume : Text
  pub destination : Text

pub record Vm : Type 0 where
  pub memory_mb : ℤ
  pub cpus : ℤ

pub record Deploy : Type 0 where
  pub release_command : Text

pub record Config : Type 0 where
  pub app : Text
  pub build : Build
  pub image : Text
  pub env : Dict Text
  pub services : List Service
  pub mounts : List Mount
  pub vm : Vm
  pub domains : List Text
  pub deploy : Deploy

-- [a-z0-9]
unfoldable pub is_alnum : ℕ → Bool
is_alnum c = (leb b'a' c && leb c b'z') || (leb b'0' c && leb c b'9')

-- [a-z0-9-]
unfoldable pub is_label_byte : ℕ → Bool
unfolding is_alnum
is_label_byte c = is_alnum c || c == b'-'

-- ([a-z0-9-]{0,n}[a-z0-9])?$
unfoldable pub name_tail : ℕ → Text → Bool
unfolding is_label_byte
name_tail n [] = true
name_tail n (c ∷ []) = is_alnum c
name_tail zero (c ∷ d ∷ s) = false
name_tail (suc n) (c ∷ d ∷ s) = is_label_byte c && name_tail n (d ∷ s)

-- ^[a-z0-9]([a-z0-9-]{0,30}[a-z0-9])?$
unfoldable pub valid_name : Text → Bool
unfolding name_tail
valid_name [] = false
valid_name (c ∷ s) = is_alnum c && name_tail 30 s

-- The rest of a label that can take `n` bytes more, then (\.[a-z0-9-]{1,63})*$; `dot` says that a dot was
-- read, `empty` that the label has no byte yet.
unfoldable pub domain_tail : Bool → Bool → ℕ → Text → Bool
unfolding is_label_byte
domain_tail dot empty n [] = dot && not empty
domain_tail dot empty zero (c ∷ s) = c == b'.' && not empty && domain_tail true true 63 s
domain_tail dot empty (suc n) (c ∷ s) =
    let more = domain_tail dot false n s in
    let next = domain_tail true true 63 s in
    if is_label_byte c then more else c == b'.' && not empty && next

-- ^[a-z0-9-]{1,63}(\.[a-z0-9-]{1,63})+$
unfoldable pub valid_domain : Text → Bool
unfolding domain_tail
valid_domain s = domain_tail false true 63 s

unfoldable pub all_valid_domains : List Text → Bool
unfolding valid_domain
all_valid_domains [] = true
all_valid_domains (d ∷ ds) = valid_domain d && all_valid_domains ds

abbrev no_config : Config
no_config = record {
  app = [];
  build = record { dockerfile = []; args = [] };
  image = [];
  env = [];
  services = [];
  mounts = [];
  vm = record { memory_mb = pos 256; cpus = pos 1 };
  domains = [];
  deploy = record { release_command = [] };
}

-- Parse; toml.Unmarshal, of a package that is not in the repository, is the first argument: it reads a
-- text over the defaults.
unfoldable pub parse : (Text → Config → Option Config) → Text → Result Config
parse unmarshal b = elim (unmarshal b no_config) [
  | none ↦ err bad_toml
  | some c ↦
      let c' = record c {
        build = record {
          dockerfile = if c.build.dockerfile == t "" then t "Dockerfile" else c.build.dockerfile;
          args = c.build.args;
        };
      } in
      if valid_name c.app
      then if all_valid_domains c.domains then ok c' else err bad_domain
      else err bad_name
]

names :
    (valid_name (t "hello-1") ≡ true)
    × (valid_name (t "-hello") ≡ false)
    × (valid_name (t "a/b") ≡ false)
unfolding valid_name nat_eq
names = (refl, refl, refl)

domains :
    (valid_domain (t "a.example.com") ≡ true)
    × (valid_domain (t "localhost") ≡ false)
    × (valid_domain (t "a..b") ≡ false)
unfolding valid_domain nat_eq
domains = (refl, refl, refl)
