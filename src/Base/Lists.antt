-- ===== src/Base/Lists.antt =====
-- Lists measured and indexed by native numbers, under the library's names.
use Prim.Native.Nat.{ℕ, zero, suc, ◌+◌, ◌-◌, ◌≤◌, ◌<◌}
use mathlib.Core.Path.{◌≡◌, refl, ap, ◌∙◌}
use mathlib.Core.Bool.{Bool, true, false, ◌&&◌}
use mathlib.Core.List.{List, [], ◌∷◌, ◌++◌, append_assoc, map}
use native.Mathlib.Omega.{arith}

module _ {ℓ} {A : Type ℓ} where
  abbrev pub length : List A → ℕ
  length [] = 0
  length (x ∷ xs) = suc (length xs)

  abbrev pub take : ℕ → List A → List A
  take zero xs = []
  take (suc n) [] = []
  take (suc n) (x ∷ xs) = x ∷ take n xs

  abbrev pub drop : ℕ → List A → List A
  drop zero xs = xs
  drop (suc n) [] = []
  drop (suc n) (x ∷ xs) = drop n xs

  -- Truth of a list, as Python reads it: `bool(xs)`.
  abbrev pub nonempty : List A → Bool
  nonempty [] = false
  nonempty (x ∷ xs) = true

  abbrev pub all : (A → Bool) → List A → Bool
  all p [] = true
  all p (x ∷ xs) = p x && all p xs

  -- A list of lists, joined.
  abbrev pub concat : List (List A) → List A
  concat [] = []
  concat (xs ∷ xss) = xs ++ concat xss

module _ {ℓ} {A : Type ℓ} where
  pub length-append : (xs ys : List A) → length (xs ++ ys) ≡ length xs + length ys
  length-append [] ys = omega arith
  length-append (x ∷ xs) ys = omega (arith, length-append xs ys)

  pub take-append-drop : (n : ℕ) (xs : List A) → take n xs ++ drop n xs ≡ xs
  take-append-drop zero xs = refl
  take-append-drop (suc n) [] = refl
  take-append-drop (suc n) (x ∷ xs) = ap (λ t. x ∷ t) (take-append-drop n xs)

  pub length-drop : (n : ℕ) (xs : List A) → length (drop n xs) ≡ length xs - n
  length-drop zero xs = omega arith
  length-drop (suc n) [] = omega arith
  length-drop (suc n) (x ∷ xs) = omega (arith, length-drop n xs)

  pub drop-length : (xs : List A) → drop (length xs) xs ≡ []
  drop-length [] = refl
  drop-length (x ∷ xs) = drop-length xs

  pub take-length : (xs : List A) → take (length xs) xs ≡ xs
  take-length [] = refl
  take-length (x ∷ xs) = ap (λ t. x ∷ t) (take-length xs)

  pub drop-drop : (m n : ℕ) (xs : List A) → drop m (drop n xs) ≡ drop (n + m) xs
  drop-drop m zero xs = ap (λ (k : ℕ). drop k xs) (omega arith)
  drop-drop m (suc n) [] = drop-nil m (suc n + m)
    where
      drop-nil : (a b : ℕ) → drop a (let e : List A = [] in e) ≡ drop b []
      drop-nil zero zero = refl
      drop-nil zero (suc b) = refl
      drop-nil (suc a) zero = refl
      drop-nil (suc a) (suc b) = refl
  drop-drop m (suc n) (x ∷ xs) =
      drop-drop m n xs ∙ ap (λ (k : ℕ). drop k (x ∷ xs)) {x = suc (n + m)} (omega arith)

  pub nonempty-drop : (n : ℕ) (xs : List A) → n < length xs → nonempty (drop n xs) ≡ true
  nonempty-drop n [] h = absurd (omega arith)
  nonempty-drop zero (x ∷ xs) h = refl
  nonempty-drop (suc n) (x ∷ xs) h = nonempty-drop n xs (omega arith)

  pub drop-eq-nil : (n : ℕ) (xs : List A) → length xs ≤ n → drop n xs ≡ []
  drop-eq-nil zero [] h = refl
  drop-eq-nil (suc n) [] h = refl
  drop-eq-nil zero (x ∷ xs) h = absurd (omega arith)
  drop-eq-nil (suc n) (x ∷ xs) h = drop-eq-nil n xs (omega arith)

  -- A prefix inside the first list is not seen to the right of it.
  pub drop-append : (n : ℕ) (xs ys : List A) → n ≤ length xs → drop n (xs ++ ys) ≡ drop n xs ++ ys
  drop-append zero xs ys h = refl
  drop-append (suc n) [] ys h = absurd (omega arith)
  drop-append (suc n) (x ∷ xs) ys h = drop-append n xs ys (omega arith)

  pub concat-append : (xs ys : List (List A)) → concat (xs ++ ys) ≡ concat xs ++ concat ys
  concat-append [] ys = refl
  concat-append (x ∷ xs) ys = simp (concat-append xs ys, append_assoc)

abbrev pub All {ℓ κ} : {A : Type ℓ} → (A → Type κ) → List A → Type κ
All P [] = Unit
All P (x ∷ xs) = P x × All P xs

module _ {ℓ κ} {A : Type ℓ} (P : A → Type κ) where
  pub All-split :
      (xs : List A) (y : A) (ys : List A) → All P (xs ++ y ∷ ys) → All P xs × P y × All P ys
  All-split [] y ys (h, hs) = (tt, h, hs)
  All-split (x ∷ xs) y ys (h, hs) = let (a, b, c) = All-split xs y ys hs in ((h, a), b, c)

  pub All-join :
      (xs : List A) (y : A) (ys : List A) → All P xs → P y → All P ys → All P (xs ++ y ∷ ys)
  All-join [] y ys hxs h hys = (h, hys)
  All-join (x ∷ xs) y ys (hx, hxs) h hys = (hx, All-join xs y ys hxs h hys)

  -- What holds of each element holds of each image.
  pub All-map {ι} :
      {B : Type ι} (Q : B → Type κ) (f : A → B)
      → ((x : A) → P x → Q (f x))
      → (xs : List A) → All P xs
      → All Q (map f xs)
  All-map Q f g [] h = tt
  All-map Q f g (x ∷ xs) (hx, hxs) = (g x hx, All-map Q f g xs hxs)

  pub All-append : (xs ys : List A) → All P (xs ++ ys) → All P xs × All P ys
  All-append [] ys h = (tt, h)
  All-append (x ∷ xs) ys (hx, h) = let (hxs, hys) = All-append xs ys h in ((hx, hxs), hys)

  pub All-unmap {ι} :
      {B : Type ι} (f : B → A) (xs : List B) → All P (map f xs) → All (λ x. P (f x)) xs
  All-unmap f [] h = tt
  All-unmap f (x ∷ xs) (hx, hxs) = (hx, All-unmap f xs hxs)

  -- Two things that hold of each element, and what follows from both.
  pub All-both :
      (Q R : A → Type κ)
      → ((x : A) → P x → Q x → R x)
      → (xs : List A) → All P xs
      → All Q xs
      → All R xs
  All-both Q R f [] h k = tt
  All-both Q R f (x ∷ xs) (hx, hxs) (kx, kxs) = (f x hx kx, All-both Q R f xs hxs kxs)

  pub All-imp : (Q : A → Type κ) → ((x : A) → P x → Q x) → (xs : List A) → All P xs → All Q xs
  All-imp Q f [] h = tt
  All-imp Q f (x ∷ xs) (hx, hxs) = (f x hx, All-imp Q f xs hxs)
