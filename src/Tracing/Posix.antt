-- ===== src/Tracing/Posix.antt =====
-- src/flnr/command_tracing/platform/_posix.py: a command as one for a POSIX shell. `shlex.quote` is
-- that of the standard library.
pub mod Shell
pub mod Quoting
pub mod Recipes
mod Tests
use flnr.Base.{
  ℕ, ◌-◌, String, Bool, true, false, not, ◌&&◌, ◌||◌, Option, none, some, List, [], ◌∷◌, ◌++◌, ◌==◌,
  leb, if◌then◌else◌, length, take, drop, nonempty, map, all,
}
use flnr.Base.Text.{Text, codes, text_eq, join}
use flnr.Outcome.{Result, ok, err, assertion_error}
use flnr.Tracing.EnvListing.{Env, EnvListing, get}

abbrev pub single_quote : ℕ
single_quote = 39

abbrev pub double_quote : ℕ
double_quote = 34

-- `[a-zA-Z0-9_@%+=:,./-]`, what `shlex.quote` leaves as it is
abbrev pub is_safe : ℕ → Bool
is_safe c =
    (leb 97 c && leb c 122)
    || (leb 64 c && leb c 90)
    || (leb 43 c && leb c 58)
    || c == 95
    || c == 37
    || c == 61

-- `s.replace("'", "'\"'\"'")`
pub escape : Text → Text
escape [] = []
escape (c ∷ s) = (if c == single_quote then codes "'\"'\"'" else c ∷ []) ++ escape s

-- `shlex.quote`
pub quote : Text → Text
quote [] = codes "''"
quote (c ∷ s) =
    if all is_safe (c ∷ s) then c ∷ s else single_quote ∷ (escape (c ∷ s) ++ single_quote ∷ [])

-- `text.endswith(suffix)` and `text[: -len(suffix)]`, for a suffix that is not empty
abbrev pub ends_with : Text → Text → Bool
ends_with text suffix =
    leb (length suffix) (length text) && text_eq (drop (length text - length suffix) text) suffix

abbrev pub without_suffix : Text → Text → Text
without_suffix text suffix = take (length text - length suffix) text

-- the truth of `host_env.get("PATH")`
abbrev pub nonempty_value : Option Text → Option Text
nonempty_value none = none
nonempty_value (some []) = none
nonempty_value (some (c ∷ value)) = some (c ∷ value)

-- `_render_path_assignment` once the host's PATH is known
pub render_against : Text → Text → Text → Option Text
render_against key value host_path =
    let suffix = codes ":" ++ host_path in
    if text_eq value host_path
    then some (quote key ++ codes "=$PATH")
    else if ends_with value suffix
    then some (quote key ++ (codes "=" ++ (quote (without_suffix value suffix) ++ codes ":$PATH")))
    else none

-- `_render_path_assignment`
pub render_path_assignment : Text → Text → Env → Option Text
render_path_assignment key value host_env =
    if text_eq key (codes "PATH")
    then elim (nonempty_value (get (codes "PATH") host_env)) [
      | none ↦ none
      | some host_path ↦ render_against key value host_path
    ]
    else none

-- `_render_assignment`
pub render_assignment : Env → Text × Text → Text
render_assignment host_env (key, value) = elim (render_path_assignment key value host_env) [
  | none ↦ quote key ++ (codes "=" ++ quote value)
  | some path_assignment ↦ path_assignment
]

-- `_render_multiline_recipe`: the parts on lines of their own, the first of the environment and of
-- the command less indented.
abbrev pub indented : List Text → List Text
indented [] = []
indented (part ∷ parts) = (codes "  " ++ part) ∷ map (λ item. codes "    " ++ item) parts

abbrev pub with_prompt : List Text → List Text
with_prompt [] = []
with_prompt (line ∷ lines) = (codes ">\n" ++ line) ∷ lines

pub render_multiline_recipe : List Text → List Text → Result Text
render_multiline_recipe env_parts [] = err assertion_error
render_multiline_recipe env_parts (part ∷ parts) =
    ok (join (codes " \\\n") (with_prompt (indented env_parts ++ indented (part ∷ parts))))

-- `_render_compact_recipe`
pub render_compact_recipe : List Text → List Text → Result Text
render_compact_recipe env_parts [] = err assertion_error
render_compact_recipe env_parts (part ∷ parts) = ok (join (codes " ") (env_parts ++ part ∷ parts))

abbrev pub lists_something : EnvListing → Bool
lists_something listing =
    nonempty listing.variables || nonempty listing.removed_variables || listing.clear_environment

-- The parts in front of the command.
unfoldable pub render_env_parts : EnvListing → Env → List Text
render_env_parts listing host_env =
    if lists_something listing
    then codes "env"
      ∷ ((if listing.clear_environment
            then codes "-i" ∷ []
            else map (λ variable. codes "-u " ++ quote variable) listing.removed_variables)
          ++ map (render_assignment host_env) listing.variables)
    else []

-- `render_recipe`; `style` is FLNR_INTERNAL_COMMAND_TRACE_STYLE of `os.environ`.
unfoldable pub render_recipe : Option Text → List Text → EnvListing → Env → Result Text
render_recipe style cmd listing host_env =
    let env_parts = render_env_parts listing host_env in
    let cmd_parts = map quote cmd in
    elim style [
      | none ↦ render_compact_recipe env_parts cmd_parts
      | some s ↦
          if text_eq s (codes "multiline")
          then render_multiline_recipe env_parts cmd_parts
          else render_compact_recipe env_parts cmd_parts
    ]
