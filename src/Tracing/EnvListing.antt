-- ===== src/Tracing/EnvListing.antt =====
-- src/flnr/command_tracing/env_listing.py. A mapping is an association list in the order of
-- insertion; names and values are texts.
pub mod Rebuild
pub mod Selected
mod Tests
use flnr.Base.{
  String, Bool, true, false, not, Option, none, some, List, [], ◌∷◌, if◌then◌else◌, is_some,
  nonempty,
}
use flnr.Base.Text.{Text, text_eq}
use flnr.Outcome.{Result, ok, err, value_error, type_error, ◌>>=◌}

abbrev pub Env : Type 0
Env = List (Text × Text)

-- `env.get(name)`
unfoldable pub get : Text → Env → Option Text
get name [] = none
get name ((key, value) ∷ env) = if text_eq name key then some value else get name env

-- `name in env`
abbrev pub has : Text → Env → Bool
has name env = is_some (get name env)

pub record EnvListing : Type 0 where
  pub variables : List (Text × Text)
  pub clear_environment : Bool
  pub removed_variables : List Text
  pub missing_variables : List Text

-- `host_env.get(key) == value`
abbrev pub is_value : Option Text → Text → Bool
is_value none value = false
is_value (some held) value = text_eq held value

unfoldable pub list_no_environment : Env → Env → EnvListing
list_no_environment child_env host_env = record {
  variables = [];
  clear_environment = false;
  removed_variables = [];
  missing_variables = [];
}

-- `(key, value) for key, value in child_env.items() if host_env.get(key) != value`
pub changed : Env → Env → List (Text × Text)
changed host_env [] = []
changed host_env ((key, value) ∷ child_env) =
    let rest = changed host_env child_env in
    if is_value (get key host_env) value then rest else (key, value) ∷ rest

-- `key for key in host_env if key not in child_env`
pub removed : Env → Env → List Text
removed child_env [] = []
removed child_env ((key, value) ∷ host_env) =
    let rest = removed child_env host_env in if has key child_env then rest else key ∷ rest

unfoldable pub list_changed_environment : Env → Env → EnvListing
list_changed_environment child_env host_env = record {
  variables = changed host_env child_env;
  clear_environment = false;
  removed_variables = removed child_env host_env;
  missing_variables = [];
}

unfoldable pub list_recreated_environment : Env → Env → EnvListing
list_recreated_environment child_env host_env = record {
  variables = child_env;
  clear_environment = true;
  removed_variables = [];
  missing_variables = [];
}

-- An element of the sequence handed to `list_selected_environment`.
pub data Name : Type 0 where
  a_string : Text → Name
  another_object : Name

-- The sequence itself: a text or bytes is refused as a whole.
pub data Names : Type 0 where
  string_like : Names
  sequence : List Name → Names

-- the loop of `_freeze_variables`
unfoldable pub check_names : List Name → Result (List Text)
check_names [] = ok []
check_names (another_object ∷ names) = err (type_error "variables must contain only strings")
check_names (a_string [] ∷ names) = err (value_error "environment variable name must not be empty")
check_names (a_string (c ∷ name) ∷ names) = do frozen ← check_names names; ok ((c ∷ name) ∷ frozen)

unfoldable pub member : Text → List Text → Bool
member name [] = false
member name (other ∷ names) = if text_eq name other then true else member name names

-- `tuple(dict.fromkeys(frozen))`: each name once, where it stands first. `seen` is what the
-- dictionary holds already.
unfoldable pub from_keys : List Text → List Text → List Text
unfolding member
from_keys seen [] = []
from_keys seen (name ∷ names) =
    let known = member name seen in
    let rest = from_keys (if known then seen else name ∷ seen) names in
    if known then rest else name ∷ rest

-- `_freeze_variables`
unfoldable pub freeze_variables : Names → Result (List Text)
freeze_variables string_like = err (type_error "variables must be a sequence of environment names")
freeze_variables (sequence names) = do frozen ← check_names names; ok (from_keys [] frozen)

-- `(name, child_env[name]) for name in names if name in child_env`
unfoldable pub selected : Env → List Text → List (Text × Text)
selected child_env [] = []
selected child_env (name ∷ names) =
    let rest = selected child_env names in
    elim (get name child_env) [ none ↦ rest | some value ↦ (name, value) ∷ rest ]

-- `name for name in names if name not in child_env`
unfoldable pub missing : Env → List Text → List Text
missing child_env [] = []
missing child_env (name ∷ names) =
    let rest = missing child_env names in if has name child_env then rest else name ∷ rest

-- `list_selected_env`, closed over the frozen names
unfoldable pub list_selected_env : List Text → Env → Env → EnvListing
list_selected_env names child_env host_env = record {
  variables = selected child_env names;
  clear_environment = false;
  removed_variables = [];
  missing_variables = missing child_env names;
}

unfoldable pub list_selected_environment : Names → Result (Env → Env → EnvListing)
list_selected_environment variables = do
  names ← freeze_variables variables
  ok (list_selected_env names)
