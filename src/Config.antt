-- ===== src/Config.antt =====
-- The configuration (system/include/Config.hpp, system/common_src/Config.cpp). The parser of YAML and
-- the environment of the process are arguments: the entries of the section celte of a file, in the
-- order of the file, with `none` where YAML::LoadFile or the reading of an entry throws, and getenv.
use Prim.Native.String.{◌++◌}
use celte_system.Prelude.{
  Bool, true, false, String, List, [], ◌∷◌, Option, none, some, ◌≡◌, refl, sym, ap, ◌∙◌, ◌==◌,
  eq_iff, arith, if◌then◌else◌, Option-cases, inl, inr,
}
use celte_system.Prelude.Assoc
use celte_system.Prelude.Assoc.{Assoc, find-put}
use celte_system.Topics.{initial_scope}

-- `default_scope_name` is the global of Topics.cpp that SetSessionId writes.
pub record Config : Type 0 where
  pub config : Assoc String
  pub session_id : String
  pub default_scope_name : String

-- One entry of the list of defaults.
unfoldable pub set_default : Assoc String → String × String → Assoc String
set_default config (key, value) = elim (Assoc.find config key) [
  | none ↦ Assoc.put config key value
  | some _ ↦ config
]

unfoldable pub set_defaults : Assoc String → List (String × String) → Assoc String
set_defaults config [] = config
set_defaults config (d ∷ ds) = set_defaults (set_default config d) ds

unfoldable pub read_entries : Assoc String → List (String × String) → Assoc String
read_entries config [] = config
read_entries config ((key, value) ∷ kvs) = read_entries (Assoc.put config key value) kvs

abbrev pub defaults : List (String × String)
defaults =
    ("CELTE_REDIS_HOST", "localhost")
    ∷ ("CELTE_REDIS_PORT", "6379")
    ∷ ("CELTE_REDIS_KEY", "logs")
    ∷ ("PUSHGATEWAY_HOST", "localhost")
    ∷ ("PUSHGATEWAY_PORT", "9091")
    ∷ ("METRICS_UPLOAD_INTERVAL", "5")
    ∷ ("REPLICATION_INTERVAL", "1000")
    ∷ []

abbrev pub loaded : List (String × String) → Config
loaded entries = record {
  config = set_defaults (read_entries [] entries) defaults;
  session_id = "default";
  default_scope_name = initial_scope;
}

-- Config::Config; `none` is the exception that it passes on. std::string of a null pointer throws.
unfoldable pub init :
    (String → Option String) → (String → Option (List (String × String))) → Option Config
init env load_file = elim (env "HOME") [
  | none ↦ none
  | some home ↦ elim (load_file (home ++ "/.celte.yaml")) [
    | none ↦ none
    | some entries ↦ some (loaded entries)
  ]
]

unfoldable pub get : (String → Option String) → Config → String → Option String
get env c key = elim (Assoc.find c.config key) [ none ↦ env key | some value ↦ some value ]

unfoldable pub set : Config → String → String → Config
set c key value = record c { config = Assoc.put c.config key value }

unfoldable pub set_session_id : Config → String → Config
set_session_id c session_id = record c {
  default_scope_name = ("non-persistent://public/" ++ session_id) ++ "/";
  session_id = session_id;
}

-- The value of the last entry for a key.
unfoldable pub last_entry : List (String × String) → String → Option String
last_entry [] key = none
last_entry ((k, value) ∷ kvs) key = elim (last_entry kvs key) [
  | none ↦ if k == key then some value else none
  | some w ↦ some w
]

abbrev pub or_else : Option String → Option String → Option String
or_else none other = other
or_else (some value) other = some value

or_else_assoc : (x y z : Option String) → or_else (or_else x y) z ≡ or_else x (or_else y z)
or_else_assoc none y z = refl
or_else_assoc (some v) y z = refl

or_else-none : (x : Option String) → or_else x none ≡ x
or_else-none none = refl
or_else-none (some v) = refl

or_else-if :
    (b : Bool) (v : String) (x : Option String)
    → or_else (if b then some v else none) x ≡ (if b then some v else x)
or_else-if true v x = refl
or_else-if false v x = refl

get-or_else :
    (env : String → Option String) (c : Config) (key : String)
    → get env c key ≡ or_else (Assoc.find c.config key) (env key)
unfolding get
get-or_else env c key = elim (Option-cases (Assoc.find c.config key)) [
  | inl e ↦ ground (arith, e)
  | inr (w, e) ↦ ground (arith, e)
]

find-read_entries :
    (config : Assoc String) (kvs : List (String × String)) (key : String)
    → Assoc.find (read_entries config kvs) key
      ≡ or_else (last_entry kvs key) (Assoc.find config key)
unfolding read_entries last_entry
find-read_entries config [] key = refl
find-read_entries config ((k, v) ∷ kvs) key = elim (Option-cases (last_entry kvs key)) [
  | inl e ↦
      ground (arith, find-read_entries (Assoc.put config k v) kvs key, find-put config k key v, e)
  | inr (w, e) ↦ ground (arith, find-read_entries (Assoc.put config k v) kvs key, e)
]

find-set_default :
    (config : Assoc String) (k v key : String)
    → Assoc.find (set_default config (k, v)) key
      ≡ or_else (Assoc.find config key) (if k == key then some v else none)
unfolding set_default
find-set_default config k v key = elim (Option-cases (Assoc.find config k)) [
  | inl e ↦ ground (arith, find-put config k key v, eq_iff k key, e)
  | inr (w, e) ↦ ground (arith, eq_iff k key, e)
]

find-set_defaults :
    (config : Assoc String) (ds : List (String × String)) (key : String)
    → Assoc.find (set_defaults config ds) key ≡ or_else (Assoc.find config key) (Assoc.find ds key)
unfolding set_defaults Assoc.find
find-set_defaults config [] key = sym (or_else-none (Assoc.find config key))
find-set_defaults config ((k, v) ∷ ds) key =
    find-set_defaults (set_default config (k, v)) ds key
    ∙ ap (λ x. or_else x (Assoc.find ds key)) (find-set_default config k v key)
    ∙ or_else_assoc (Assoc.find config key) (if k == key then some v else none) (Assoc.find ds key)
    ∙ ap (or_else (Assoc.find config key)) (or_else-if (k == key) v (Assoc.find ds key))

-- The values of the keys that have a default.
abbrev pub default_of : String → Option String
default_of key =
    if "CELTE_REDIS_HOST" == key
    then some "localhost"
    else if "CELTE_REDIS_PORT" == key
    then some "6379"
    else if "CELTE_REDIS_KEY" == key
    then some "logs"
    else if "PUSHGATEWAY_HOST" == key
    then some "localhost"
    else if "PUSHGATEWAY_PORT" == key
    then some "9091"
    else if "METRICS_UPLOAD_INTERVAL" == key
    then some "5"
    else if "REPLICATION_INTERVAL" == key
    then some "1000"
    else none

default_of-defaults : (key : String) → Assoc.find defaults key ≡ default_of key
unfolding Assoc.find
default_of-defaults key = refl

-- After the constructor, the value of a key is that of its last entry in the file, or else its
-- default, which is localhost for the hosts of redis and of the push gateway, 6379, logs, 9091, 5 and
-- 1000 for the five other keys that have one, or else that of the environment: this is not looked at
-- for a key that has a default.
pub get-init :
    (env : String → Option String) (load_file : String → Option (List (String × String)))
    (home : String) (entries : List (String × String))
    → env "HOME" ≡ some home
    → load_file (home ++ "/.celte.yaml") ≡ some entries
    → (c : Config) × (init env load_file ≡ some c)
      × ((key : String)
          → get env c key ≡ or_else (last_entry entries key) (or_else (default_of key) (env key)))
unfolding init Assoc.find
get-init env load_file home entries h e = (
  loaded entries,
  ground (arith, h, e),
  λ key.
      get-or_else env (loaded entries) key
      ∙ ap (λ x. or_else x (env key))
          (find-set_defaults (read_entries [] entries) defaults key
            ∙ ap (λ x. or_else x (Assoc.find defaults key))
                (find-read_entries [] entries key ∙ or_else-none (last_entry entries key)))
      ∙ or_else_assoc (last_entry entries key) (Assoc.find defaults key) (env key)
      ∙ ap (λ x. or_else (last_entry entries key) (or_else x (env key))) (default_of-defaults key),
)

-- A key that was set has its value until it is set again, whatever the environment says, and no
-- other key changes.
pub get-set :
    (env : String → Option String) (c : Config) (k j v : String)
    → get env (set c k v) j ≡ (if k == j then some v else get env c j)
unfolding get set
get-set env c k j v = ground (arith, find-put c.config k j v, eq_iff k j)
