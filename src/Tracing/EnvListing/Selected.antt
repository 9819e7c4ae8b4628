-- ===== src/Tracing/EnvListing/Selected.antt =====
-- `list_selected_environment` of src/flnr/command_tracing/env_listing.py shows what was selected, and
-- nothing else.
use flnr.Base.{
  ◌≡◌, refl, ap, true, false, none, List, [], ◌∷◌, if◌then◌else◌, arith, Bool-cases, inl, inr,
}
use flnr.Base.Text.{Text, text_eq, text_eq_refl, text_eq→eq}
use flnr.Outcome.{ok}
use flnr.Tracing.EnvListing.{
  Env, get, has, EnvListing, Name, a_string, another_object, sequence, check_names, member,
  from_keys, freeze_variables, selected, missing, list_selected_env, list_selected_environment,
}

get_same : (name key : Text) (env : Env) → text_eq name key ≡ true → get name env ≡ get key env
get_same name key env e = ap (λ t. get t env) (text_eq→eq name key e)

member_same :
    (name key : Text) (names : List Text)
    → text_eq name key ≡ true
    → member name names ≡ member key names
member_same name key names e = ap (λ t. member t names) (text_eq→eq name key e)

-- The listed assignments are the child's, at the selected names.
get-selected :
    (name : Text) (child_env : Env) (names : List Text)
    → get name (selected child_env names) ≡ (if member name names then get name child_env else none)
unfolding selected member get
get-selected name child_env [] = refl
get-selected name child_env (key ∷ names) =
    ground (arith, get-selected name child_env names, get_same name key child_env)

member-missing :
    (name : Text) (child_env : Env) (names : List Text)
    → member name (missing child_env names)
      ≡ (if has name child_env then false else member name names)
unfolding missing member
member-missing name child_env [] = ground arith
member-missing name child_env (key ∷ names) =
    ground (arith, member-missing name child_env names, get_same name key child_env)

-- Of the names not seen yet, those stay that were given.
member-from_keys :
    (name : Text) (seen names : List Text)
    → member name (from_keys seen names) ≡ (if member name seen then false else member name names)
unfolding from_keys
member-from_keys name seen [] = ground arith
member-from_keys name seen (key ∷ names) = ground (
  arith,
  member-from_keys name seen names,
  member-from_keys name (key ∷ seen) names,
  member_same name key seen,
)

-- The strings of a sequence of names.
abbrev pub strings : List Name → List Text
strings [] = []
strings (a_string name ∷ names) = name ∷ strings names
strings (another_object ∷ names) = strings names

-- Each element a non-empty string.
abbrev pub AreNames : List Name → Type 0
AreNames [] = Unit
AreNames (a_string [] ∷ names) = ⊥
AreNames (a_string (c ∷ name) ∷ names) = AreNames names
AreNames (another_object ∷ names) = ⊥

check_names_lem : (names : List Name) → AreNames names → check_names names ≡ ok (strings names)
unfolding check_names
check_names_lem [] h = refl
check_names_lem (a_string [] ∷ names) h = absurd h
check_names_lem (a_string (c ∷ name) ∷ names) h = rw (check_names_lem names h)
check_names_lem (another_object ∷ names) h = absurd h

-- The names are frozen without repeating one.
abbrev pub IsUnique : List Text → Type 0
IsUnique [] = Unit
IsUnique (name ∷ names) = (member name names ≡ false) × IsUnique names

from_keys-IsUnique : (seen names : List Text) → IsUnique (from_keys seen names)
unfolding from_keys
from_keys-IsUnique seen [] = tt
from_keys-IsUnique seen (key ∷ names) = elim (Bool-cases (member key seen)) [
  | inl old ↦ rw old (from_keys-IsUnique seen names)
  | inr new ↦ rw new (
    rw (member-from_keys key (key ∷ seen) names, text_eq_refl key),
    from_keys-IsUnique (key ∷ seen) names,
  )
]

member-from_strings :
    (name : Text) (names : List Text) → member name (from_keys [] names) ≡ member name names
unfolding member
member-from_strings name names = rw (member-from_keys name [] names)

-- What a selection shows.
pub record Shows (names : List Text) (listing : EnvListing) (child_env : Env) : Type 0 where
  -- a selected variable has its value in the child, and no other variable is listed
  pub values :
      (name : Text)
      → get name listing.variables ≡ (if member name names then get name child_env else none)
  -- what is reported missing was selected and the child does not have it
  pub absent :
      (name : Text)
      → member name listing.missing_variables
        ≡ (if has name child_env then false else member name names)
  pub nothing_removed : listing.removed_variables ≡ []
  pub nothing_cleared : listing.clear_environment ≡ false

-- A sequence of non-empty names is accepted, and its listing shows the value of every selected
-- variable that the child has, reports the selected ones that it has not, shows no variable that
-- was not selected, and neither removes nor clears anything.
pub list_selected_environment-Shows :
    (names : List Name) (child_env host_env : Env)
    → AreNames names
    → (list : Env → Env → EnvListing) × (list_selected_environment (sequence names) ≡ ok list)
      × Shows (strings names) (list child_env host_env) child_env
unfolding list_selected_environment freeze_variables list_selected_env
list_selected_environment-Shows names child_env host_env h =
    let frozen = from_keys [] (strings names) in
    (
      list_selected_env frozen,
      rw (check_names_lem names h),
      record {
        values = λ name.
            rw (get-selected name child_env frozen) (rw (member-from_strings name (strings names)));
        absent = λ name.
            rw (member-missing name child_env frozen)
              (rw (member-from_strings name (strings names)));
        nothing_removed = refl;
        nothing_cleared = refl;
      },
    )
