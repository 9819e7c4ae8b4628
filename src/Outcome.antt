-- ===== src/Outcome.antt =====
-- Python's exceptions as values. A constructor is an exception class, the text its message; a call
-- that may raise returns a `Result`.
use flnr.Base.{◌≡◌, ◌↔◌, ◌⊎◌, inl, inr, refl, String, Bool, true, false}

pub data PyError : Type 0 where
  value_error type_error runtime_error os_error overflow_error : String → PyError
  assertion_error key_error : PyError

pub data Result {ℓ} (V : Type ℓ) : Type ℓ where
  err : PyError → Result V
  ok : V → Result V

-- What follows a call runs only if the call returned.
infixl 5 ◌>>=◌
abbrev pub ◌>>=◌ {ℓ κ} : {V : Type ℓ} {W : Type κ} → Result V → (V → Result W) → Result W
err raised >>= rest = err raised
ok value >>= rest = rest value

infixl 5 ◌>>◌
abbrev pub ◌>>◌ {ℓ} : {W : Type ℓ} → Result (Unit {0}) → Result W → Result W
check >> rest = check >>= λ passed. rest

-- `if test: raise e`
abbrev pub raise_if : Bool → PyError → Result (Unit {0})
raise_if false raised = ok tt
raise_if true raised = err raised

-- When a chain of checks Passes, by what lets the rest of it pass.
pub passed_check :
    {P : Type 0} (check rest : Result (Unit {0}))
    → (rest ≡ ok tt) ↔ P
    → ((check >> rest) ≡ ok tt) ↔ ((check ≡ ok tt) × P)
passed_check (err raised) rest h = (λ e. cc, λ (a, b). cc)
passed_check (ok tt) rest h = (λ e. (refl, h.0 e), λ (a, b). h.1 b)

pub passed_test :
    {P : Type 0} (test : Bool) (raised : PyError) (rest : Result (Unit {0}))
    → (rest ≡ ok tt) ↔ P
    → ((raise_if test raised >> rest) ≡ ok tt) ↔ ((test ≡ false) × P)
passed_test true raised rest h = (λ e. cc, λ (a, b). cc)
passed_test false raised rest h = (λ e. (refl, h.0 e), λ (a, b). h.1 b)

-- A chain that returns: its first call did, and the rest returned from that value.
pub chain_returned :
    {V W : Type 0} (first : Result V) {rest : V → Result W} {w : W}
    → (first >>= rest) ≡ ok w
    → (v : V) × (first ≡ ok v) × (rest v ≡ ok w)
chain_returned (err raised) e = cc
chain_returned (ok v) e = (v, refl, e)

pub ok_inj : {V : Type 0} {v w : V} → ◌≡◌ {A = Result V} (ok v) (ok w) → v ≡ w
ok_inj e = cc

pub Result-cases :
    {V : Type 0} (r : Result V) → ((raised : PyError) × (r ≡ err raised)) ⊎ ((v : V) × (r ≡ ok v))
Result-cases (err raised) = inl (raised, refl)
Result-cases (ok v) = inr (v, refl)
