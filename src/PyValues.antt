-- ===== src/PyValues.antt =====
-- Arguments whose Python type is checked at run time.
use flnr.Base.{String, List, [], ◌∷◌}
use flnr.Outcome.{Result, ok, err, type_error, ◌>>=◌}
use Prim.Native.String.{◌++◌}

-- An instance of the expected class, or an object of another type, with that type's name.
pub data Item {ℓ} (M : Type ℓ) : Type ℓ where
  instance_of : M → Item M
  other : String → Item M

-- `tuple(values)`, where each must pass `isinstance`; the first that does not is named.
unfoldable pub freeze {ℓ} : {M : Type ℓ} → String → List (Item M) → Result (List M)
freeze error_msg [] = ok []
freeze error_msg (other type_name ∷ values) = err (type_error (error_msg ++ type_name))
freeze error_msg (instance_of m ∷ values) = do frozen ← freeze error_msg values; ok (m ∷ frozen)
