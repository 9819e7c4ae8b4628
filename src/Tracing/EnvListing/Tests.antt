-- ===== src/Tracing/EnvListing/Tests.antt =====
-- Runs and instances for src/flnr/command_tracing/env_listing.py.
use flnr.Base.{◌≡◌, refl, false, List, [], ◌∷◌}
use flnr.Base.Text.{codes, text_eq}
use flnr.Outcome.{ok, err, value_error}
use flnr.Tracing.EnvListing.{
  Env, get, changed, removed, list_changed_environment, Name, a_string, sequence, check_names,
  from_keys, freeze_variables,
}
use flnr.Tracing.EnvListing.Rebuild.{IsMapping, rebuilt, list_changed_environment-rebuilt}

abbrev host : Env
host = (codes "A", codes "1") ∷ (codes "B", codes "2") ∷ (codes "C", codes "3") ∷ []

abbrev child : Env
child = (codes "C", codes "4") ∷ (codes "A", codes "1") ∷ (codes "D", codes "") ∷ []

list_changed-child : list_changed_environment child host ≡ record {
  variables = (codes "C", codes "4") ∷ (codes "D", codes "") ∷ [];
  clear_environment = false;
  removed_variables = codes "B" ∷ [];
  missing_variables = [];
}
unfolding list_changed_environment changed removed get text_eq
list_changed-child = refl

freeze-repeated :
    freeze_variables
      (sequence (a_string (codes "A") ∷ a_string (codes "B") ∷ a_string (codes "A") ∷ []))
    ≡ ok (codes "A" ∷ codes "B" ∷ [])
unfolding freeze_variables check_names from_keys text_eq
freeze-repeated = refl

freeze-empty :
    freeze_variables (sequence (a_string (codes "A") ∷ a_string [] ∷ []))
    ≡ err (value_error "environment variable name must not be empty")
unfolding freeze_variables check_names
freeze-empty = refl

child-IsMapping : IsMapping child
unfolding get text_eq
child-IsMapping = (refl, (refl, (refl, tt)))

list_changed_environment-rebuilt_example :
    rebuilt (list_changed_environment child host) host (codes "B") ≡ get (codes "B") child
list_changed_environment-rebuilt_example =
    list_changed_environment-rebuilt child host child-IsMapping (codes "B")

abbrev names : List Name
names = a_string (codes "A") ∷ a_string (codes "Z") ∷ a_string (codes "A") ∷ []
