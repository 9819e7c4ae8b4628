-- ===== src/Tracing/EnvListing/Rebuild.antt =====
-- What a listed environment of src/flnr/command_tracing/env_listing.py stands for: the environment
-- that a shell builds from it is the child's.
use flnr.Base.{
  ◌≡◌, refl, ap, ◌∙◌, true, false, Option, none, some, List, [], ◌∷◌, if◌then◌else◌, arith,
  Bool-cases, Option-cases, inl, inr,
}
use flnr.Base.Text.{Text, text_eq, text_eq_refl, text_eq→eq}
use flnr.Tracing.EnvListing.{
  Env, get, has, EnvListing, is_value, member, changed, removed, list_changed_environment,
  list_recreated_environment,
}

-- An environment as a shell sees it.
abbrev pub Lookup : Type 0
Lookup = Text → Option Text

-- `NAME=value` assignments, from left to right.
abbrev pub assign : List (Text × Text) → Lookup → Lookup
assign [] base = base
assign ((key, value) ∷ rest) base =
    assign rest (λ name. if text_eq name key then some value else base name)

-- The base that the assignments start from: nothing, or what is inherited without what is removed.
abbrev pub base_of : EnvListing → Env → Lookup
base_of listing host_env name =
    if listing.clear_environment
    then none
    else if member name listing.removed_variables
    then none
    else get name host_env

abbrev pub rebuilt : EnvListing → Env → Lookup
rebuilt listing host_env = assign listing.variables (base_of listing host_env)

-- A mapping holds a key once.
abbrev pub IsMapping : Env → Type 0
IsMapping [] = Unit
IsMapping ((key, value) ∷ env) = (get key env ≡ none) × IsMapping env

abbrev or_else : Option Text → Option Text → Option Text
or_else none b = b
or_else (some a) b = some a

get-cons :
    (key value k v : Text) (env : Env)
    → get key env ≡ none
    → get k env ≡ some v
    → (text_eq k key ≡ false) × (get k ((key, value) ∷ env) ≡ some v)
unfolding get
get-cons key value k v env fresh found = elim (Bool-cases (text_eq k key)) [
  | inl e ↦ cc (fresh, found, ap (λ t. get t env) (text_eq→eq k key e))
  | inr e ↦ (e, rw e found)
]

get-cons_self : (key value : Text) (env : Env) → get key ((key, value) ∷ env) ≡ some value
unfolding get
get-cons_self key value env = rw (text_eq_refl key)

is_value→eq : (o : Option Text) (value : Text) → is_value o value ≡ true → o ≡ some value
is_value→eq none value h = cc
is_value→eq (some held) value h = ap some (text_eq→eq held value h)

-- The first entry of a mapping was kept as it is, and the rest is rebuilt already.
kept_entry :
    (key value name : Text) (env : Env) (base : Lookup) (b : Option Text)
    → get key env ≡ none
    → base key ≡ some value
    → b ≡ or_else (get name env) (base name)
    → b ≡ or_else (get name ((key, value) ∷ env)) (base name)
unfolding get
kept_entry key value name env base b fresh held ih = elim (Bool-cases (text_eq name key)) [
  | inl e ↦
      let same : name ≡ key = text_eq→eq name key e in
      rw e (ih ∙ cc (fresh, held, ap (λ t. get t env) same, ap base same))
  | inr e ↦ rw e ih
]

-- The first entry was assigned, and the rest is rebuilt on that.
assigned_entry :
    (key value name : Text) (env : Env) (base : Lookup) (b : Option Text)
    → get key env ≡ none
    → b ≡ or_else (get name env) (if text_eq name key then some value else base name)
    → b ≡ or_else (get name ((key, value) ∷ env)) (base name)
unfolding get
assigned_entry key value name env base b fresh ih = elim (Bool-cases (text_eq name key)) [
  | inl e ↦
      let same : name ≡ key = text_eq→eq name key e in
      let absent : get name env ≡ none = ap (λ t. get t env) same ∙ fresh in
      rw e (ih ∙ rw (e, absent))
  | inr e ↦ rw e (ih ∙ rw e)
]

-- Where the base holds what is unchanged, the changed assignments give the whole mapping.
assign-changed :
    (host_env child_env : Env) (base : Lookup)
    → IsMapping child_env
    → ((k v : Text) → get k child_env ≡ some v → get k host_env ≡ some v → base k ≡ some v)
    → (name : Text)
    → assign (changed host_env child_env) base name ≡ or_else (get name child_env) (base name)
unfolding changed
assign-changed host_env [] base u agree name = unfold get in refl
assign-changed host_env ((key, value) ∷ child_env) base (fresh, u) agree name =
    elim (Bool-cases (is_value (get key host_env) value)) [
      | inl same ↦ rw same (
          kept_entry key value name child_env base _ fresh
            (agree key value (get-cons_self key value child_env)
              (is_value→eq (get key host_env) value same))
            (assign-changed host_env child_env base u
              (λ k v found held. agree k v (get-cons key value k v child_env fresh found).1 held)
              name))
      | inr differs ↦ rw differs (
          assigned_entry key value name child_env base _ fresh (
            assign-changed host_env child_env (λ k. if text_eq k key then some value else base k) u
              (λ k v found held.
                rw (get-cons key value k v child_env fresh found).0
                  (agree k v (get-cons key value k v child_env fresh found).1 held))
              name))
    ]

has_same : (name key : Text) (env : Env) → text_eq name key ≡ true → has name env ≡ has key env
has_same name key env e = ap (λ t. has t env) (text_eq→eq name key e)

-- What is removed is what the host holds and the child does not.
member-removed :
    (name : Text) (child_env host_env : Env)
    → member name (removed child_env host_env)
      ≡ (if has name child_env then false else has name host_env)
unfolding removed member get
member-removed name child_env [] = ground arith
member-removed name child_env ((key, value) ∷ host_env) =
    ground (arith, member-removed name child_env host_env, has_same name key child_env)

base_of-kept :
    (child_env host_env : Env) (k v : Text)
    → get k child_env ≡ some v
    → base_of (list_changed_environment child_env host_env) host_env k ≡ get k host_env
unfolding list_changed_environment
base_of-kept child_env host_env k v found = rw (member-removed k child_env host_env, found)

base_of-absent :
    (child_env host_env : Env) (k : Text)
    → get k child_env ≡ none
    → base_of (list_changed_environment child_env host_env) host_env k ≡ none
unfolding list_changed_environment
base_of-absent child_env host_env k absent =
    rw (member-removed k child_env host_env, absent) (ground arith)

-- A shell that starts from the host's environment, removes what `list_changed_environment` lists as
-- removed and assigns what it lists as changed has the child's environment, name by name.
pub list_changed_environment-rebuilt :
    (child_env host_env : Env)
    → IsMapping child_env
    → (name : Text)
    → rebuilt (list_changed_environment child_env host_env) host_env name ≡ get name child_env
unfolding list_changed_environment
list_changed_environment-rebuilt child_env host_env u name =
    let base = base_of (list_changed_environment child_env host_env) host_env in
    assign-changed host_env child_env base u
      (λ k v found held. base_of-kept child_env host_env k v found ∙ held) name
    ∙ elim (Option-cases (get name child_env)) [
      | inl absent ↦ rw absent (base_of-absent child_env host_env name absent)
      | inr (v, found) ↦ rw found
    ]

assign-all :
    (env : Env) (base : Lookup)
    → IsMapping env
    → (name : Text) → assign env base name ≡ or_else (get name env) (base name)
assign-all [] base u name = unfold get in refl
assign-all ((key, value) ∷ env) base (fresh, u) name =
    assigned_entry key value name env base _ fresh
      (assign-all env (λ k. if text_eq k key then some value else base k) u name)

-- A shell that starts from nothing and assigns what `list_recreated_environment` lists has the
-- child's environment, whatever the host's is.
pub list_recreated_environment-rebuilt :
    (child_env host_env : Env)
    → IsMapping child_env
    → (name : Text)
    → rebuilt (list_recreated_environment child_env host_env) host_env name ≡ get name child_env
unfolding list_recreated_environment
list_recreated_environment-rebuilt child_env host_env u name =
    assign-all child_env (base_of (list_recreated_environment child_env host_env) host_env) u name
    ∙ elim (Option-cases (get name child_env)) [
      | inl absent ↦ rw absent
      | inr (v, found) ↦ rw found
    ]
