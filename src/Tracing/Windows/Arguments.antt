-- ===== src/Tracing/Windows/Arguments.antt =====
-- How a Windows program takes its command line apart into arguments, and that it takes those of
-- `_render_arguments` (src/flnr/command_tracing/platform/_windows.py) back.
use flnr.Base.{
  ℕ, zero, suc, ◌+◌, ◌≡◌, ◌⊎◌, ==_iff, refl, sym, ap, ◌∙◌, subst, Bool, true, false, not, ◌&&◌,
  ◌||◌, Option, none, some, List, [], ◌∷◌, ◌++◌, ◌==◌, if◌then◌else◌, map, arith, append_assoc,
  append-nil, Bool-cases, inl, inr,
}
use flnr.Base.Text.{Text, codes, join}
use flnr.Tracing.Posix.{double_quote}
use flnr.Tracing.Windows.{
  backslash, write_arg, has_blank, needs_quotes, cmdline_arg, render_arguments,
}

abbrev pub slashes : ℕ → Text
slashes zero = []
slashes (suc n) = backslash ∷ slashes n

-- Half of a number, and whether it is odd.
abbrev pub halve : ℕ → ℕ × Bool
halve zero = (zero, false)
halve (suc zero) = (zero, true)
halve (suc (suc n)) = let (half, odd) = halve n in (suc half, odd)

abbrev pub or_empty : Option Text → Text
or_empty none = []
or_empty (some word) = word

abbrev pub is_blank : ℕ → Bool
is_blank c = c == 32 || c == 9

-- The end of an argument, where one was begun; `n` backslashes are still held.
abbrev pub flush : ℕ → Option Text → List Text → List Text
flush zero none rest = rest
flush n word rest = (or_empty word ++ slashes n) ∷ rest

-- Backslashes count only in front of a double quote: two of them stand for one, and an odd one makes
-- the quote a character.
unfoldable pub read_arguments : Bool → ℕ → Option Text → Text → List Text
read_arguments in_quotes n word [] = flush n word []
read_arguments in_quotes n word (c ∷ s) =
    let held = read_arguments in_quotes (suc n) word s in
    let half = or_empty word ++ slashes (halve n).0 in
    let escaped = read_arguments in_quotes zero (some (half ++ double_quote ∷ [])) s in
    let toggled = read_arguments (not in_quotes) zero (some half) s in
    let next = read_arguments false zero none s in
    let more = read_arguments in_quotes zero (some (or_empty word ++ (slashes n ++ c ∷ []))) s in
    if c == backslash
    then held
    else if c == double_quote
    then (if (halve n).1 then escaped else toggled)
    else if is_blank c && not in_quotes
    then flush n word next
    else more

halve_twice : (n : ℕ) → halve (n + n) ≡ (n, false)
halve_twice zero = refl
halve_twice (suc n) =
    ap halve (let e : suc n + suc n ≡ suc (suc (n + n)) = omega arith in e)
    ∙ ap (λ (h, odd). (suc h, odd)) (halve_twice n)

halve_odd : (n : ℕ) → halve (n + suc n) ≡ (n, true)
halve_odd zero = refl
halve_odd (suc n) =
    ap halve (let e : suc n + suc (suc n) ≡ suc (suc (n + suc n)) = omega arith in e)
    ∙ ap (λ (h, odd). (suc h, odd)) (halve_odd n)

slashes_snoc : (n : ℕ) → slashes n ++ backslash ∷ [] ≡ slashes (suc n)
slashes_snoc zero = refl
slashes_snoc (suc n) = ap (λ t. backslash ∷ t) (slashes_snoc n)

read_slash :
    (q : Bool) (n : ℕ) (word : Option Text) (s : Text)
    → read_arguments q n word (backslash ∷ s) ≡ read_arguments q (suc n) word s
unfolding read_arguments
read_slash q n word s = refl

-- Backslashes are held.
read_slashes :
    (m : ℕ) (q : Bool) (n : ℕ) (word : Option Text) (s : Text)
    → read_arguments q n word (slashes m ++ s) ≡ read_arguments q (n + m) word s
read_slashes zero q n word s =
    ap (λ k. read_arguments q k word s) (let e : n ≡ n + zero = omega arith in e)
read_slashes (suc m) q n word s =
    read_slash q n word (slashes m ++ s)
    ∙ read_slashes m q (suc n) word s
    ∙ ap (λ k. read_arguments q k word s) (let e : suc n + m ≡ n + suc m = omega arith in e)

held_slashes :
    (q : Bool) (n : ℕ) (word : Option Text) (s : Text)
    → read_arguments q zero word (slashes n ++ s) ≡ read_arguments q n word s
held_slashes q n word s =
    read_slashes n q zero word s
    ∙ ap (λ k. read_arguments q k word s) (let e : zero + n ≡ n = omega arith in e)

read_toggle :
    (q : Bool) (n : ℕ) (word : Option Text) (s : Text)
    → read_arguments q (n + n) word (double_quote ∷ s)
      ≡ read_arguments (not q) zero (some (or_empty word ++ slashes n)) s
unfolding read_arguments
read_toggle q n word s = rw (halve_twice n) refl

read_escaped :
    (q : Bool) (n : ℕ) (word : Option Text) (s : Text)
    → read_arguments q (n + suc n) word (double_quote ∷ s)
      ≡ read_arguments q zero (some ((or_empty word ++ slashes n) ++ double_quote ∷ [])) s
unfolding read_arguments
read_escaped q n word s = rw (halve_odd n) refl

read_other :
    (q : Bool) (n : ℕ) (word : Option Text) (c : ℕ) (s : Text)
    → (c == backslash) ≡ false
    → (c == double_quote) ≡ false
    → (is_blank c && not q) ≡ false
    → read_arguments q n word (c ∷ s)
      ≡ read_arguments q zero (some (or_empty word ++ (slashes n ++ c ∷ []))) s
unfolding read_arguments
read_other q n word c s a b k = rw (a, b, k) refl

write_slash :
    (q : Bool) (n : ℕ) (arg : Text)
    → write_arg q (slashes n) (backslash ∷ arg) ≡ write_arg q (slashes (suc n)) arg
unfolding write_arg
write_slash q n arg = ap (λ b. write_arg q b arg) (slashes_snoc n)

write_quote :
    (q : Bool) (n : ℕ) (arg : Text)
    → write_arg q (slashes n) (double_quote ∷ arg)
      ≡ slashes n ++ (slashes n ++ backslash ∷ double_quote ∷ write_arg q [] arg)
unfolding write_arg
write_quote q n arg = refl

write_other :
    (q : Bool) (b : Text) (c : ℕ) (arg : Text)
    → (c == backslash) ≡ false
    → (c == double_quote) ≡ false
    → write_arg q b (c ∷ arg) ≡ b ++ c ∷ write_arg q [] arg
unfolding write_arg
write_other q b c arg h k = rw (h, k) refl

-- What three kinds of characters there are.
abbrev Kind : ℕ → Type 0
Kind c =
    (c ≡ backslash)
    ⊎ (c ≡ double_quote)
    ⊎ (((c == backslash) ≡ false) × ((c == double_quote) ≡ false))

char_cases : (c : ℕ) → Kind c
char_cases c = elim (Bool-cases (c == backslash)) [
  | inl e ↦ inl ((==_iff c backslash).0 e)
  | inr e ↦ elim (Bool-cases (c == double_quote)) [
    | inl k ↦ inr (inl ((==_iff c double_quote).0 k))
    | inr k ↦ inr (inr (e, k))
  ]
]

-- The doubled backslashes and the quote that ends an argument, or stands in it.
read_pair :
    (q : Bool) (n : ℕ) (word : Option Text) (s : Text)
    → read_arguments q zero word (slashes n ++ (slashes n ++ s)) ≡ read_arguments q (n + n) word s
read_pair q n word s = held_slashes q n word (slashes n ++ s) ∙ read_slashes n q n word s

read_escape :
    (q : Bool) (n : ℕ) (word : Option Text) (s : Text)
    → read_arguments q zero word (slashes n ++ (slashes n ++ backslash ∷ double_quote ∷ s))
      ≡ read_arguments q zero (some ((or_empty word ++ slashes n) ++ double_quote ∷ [])) s
read_escape q n word s =
    read_pair q n word (backslash ∷ double_quote ∷ s)
    ∙ read_slash q (n + n) word (double_quote ∷ s)
    ∙ ap (λ k. read_arguments q k word (double_quote ∷ s))
        (let e : suc (n + n) ≡ n + suc n = omega arith in e)
    ∙ read_escaped q n word s

write_end : (n : ℕ) → write_arg true (slashes n) [] ≡ slashes n ++ (slashes n ++ double_quote ∷ [])
unfolding write_arg
write_end n = refl

slash_front : (n : ℕ) (arg : Text) → slashes (suc n) ++ arg ≡ slashes n ++ backslash ∷ arg
slash_front n arg =
    ap (λ x. x ++ arg) (sym (slashes_snoc n)) ∙ append_assoc (slashes n) (backslash ∷ []) arg

quote_front :
    (q : Bool) (n : ℕ) (arg t : Text)
    → write_arg q (slashes n) (double_quote ∷ arg) ++ t
      ≡ slashes n ++ (slashes n ++ backslash ∷ double_quote ∷ (write_arg q [] arg ++ t))
quote_front q n arg t =
    ap (λ x. x ++ t) (write_quote q n arg)
    ∙ append_assoc (slashes n) (slashes n ++ backslash ∷ double_quote ∷ write_arg q [] arg) t
    ∙ ap (λ x. slashes n ++ x)
        (append_assoc (slashes n) (backslash ∷ double_quote ∷ write_arg q [] arg) t)

other_front :
    (q : Bool) (n c : ℕ) (arg t : Text)
    → (c == backslash) ≡ false
    → (c == double_quote) ≡ false
    → write_arg q (slashes n) (c ∷ arg) ++ t ≡ slashes n ++ c ∷ (write_arg q [] arg ++ t)
other_front q n c arg t e k =
    ap (λ x. x ++ t) (write_other q (slashes n) c arg e k)
    ∙ append_assoc (slashes n) (c ∷ write_arg q [] arg) t

and_false : (b : Bool) → (b && false) ≡ false
and_false true = refl
and_false false = refl

abbrev Quoted : ℕ → Text → ℕ → Text → Text → Type 0
Quoted c arg n w t =
    read_arguments true zero (some w) (write_arg true (slashes n) (c ∷ arg) ++ t)
    ≡ read_arguments false zero (some (w ++ (slashes n ++ c ∷ arg))) t

-- An argument in quotes, from behind its opening quote on.
read_quoted :
    (arg : Text) (n : ℕ) (w t : Text)
    → read_arguments true zero (some w) (write_arg true (slashes n) arg ++ t)
      ≡ read_arguments false zero (some (w ++ (slashes n ++ arg))) t
read_quoted [] n w t =
    ap (read_arguments true zero (some w)) (
      ap (λ x. x ++ t) (write_end n)
      ∙ append_assoc (slashes n) (slashes n ++ double_quote ∷ []) t
      ∙ ap (λ x. slashes n ++ x) (append_assoc (slashes n) (double_quote ∷ []) t))
    ∙ read_pair true n (some w) (double_quote ∷ t)
    ∙ read_toggle true n (some w) t
    ∙ ap (λ x. read_arguments false zero (some (w ++ x)) t) (sym (append-nil (slashes n)))
read_quoted (c ∷ arg) n w t = elim (char_cases c) [
  | inl e ↦
      subst (λ d. Quoted d arg n w t) (sym e)
        (ap (λ x. read_arguments true zero (some w) (x ++ t)) (write_slash true n arg)
          ∙ read_quoted arg (suc n) w t
          ∙ ap (λ x. read_arguments false zero (some (w ++ x)) t) (slash_front n arg))
  | inr (inl e) ↦
      subst (λ d. Quoted d arg n w t) (sym e)
        (ap (read_arguments true zero (some w)) (quote_front true n arg t)
          ∙ read_escape true n (some w) (write_arg true [] arg ++ t)
          ∙ read_quoted arg zero ((w ++ slashes n) ++ double_quote ∷ []) t
          ∙ ap (λ x. read_arguments false zero (some x) t)
              (append_assoc (w ++ slashes n) (double_quote ∷ []) arg
                ∙ append_assoc w (slashes n) (double_quote ∷ arg)))
  | inr (inr (e, k)) ↦
      ap (read_arguments true zero (some w)) (other_front true n c arg t e k)
      ∙ held_slashes true n (some w) (c ∷ (write_arg true [] arg ++ t))
      ∙ read_other true n (some w) c (write_arg true [] arg ++ t) e k (and_false (is_blank c))
      ∙ read_quoted arg zero (w ++ (slashes n ++ c ∷ [])) t
      ∙ ap (λ x. read_arguments false zero (some x) t)
          (append_assoc w (slashes n ++ c ∷ []) arg
            ∙ ap (λ x. w ++ x) (append_assoc (slashes n) (c ∷ []) arg))
]

-- An argument was begun, by what is held or by what is still to come.
abbrev is_started : Option Text → ℕ → Text → Bool
is_started none zero [] = false
is_started word n arg = true

started_held : (word : Option Text) (n : ℕ) (arg : Text) → is_started word (suc n) arg ≡ true
started_held none n [] = refl
started_held none n (c ∷ arg) = refl
started_held (some w) n [] = refl
started_held (some w) n (c ∷ arg) = refl

started_some : (w : Text) (n : ℕ) (arg : Text) → is_started (some w) n arg ≡ true
started_some w zero [] = refl
started_some w zero (c ∷ arg) = refl
started_some w (suc n) [] = refl
started_some w (suc n) (c ∷ arg) = refl

-- The end of the line, or a blank and the next arguments.
abbrev IsEnd : Text → Type 0
IsEnd [] = Unit
IsEnd (c ∷ t) = c ≡ 32

abbrev after : Text → List Text
after [] = []
after (c ∷ t) = read_arguments false zero none t

flushed :
    (n : ℕ) (word : Option Text) (rest : List Text)
    → is_started word n [] ≡ true
    → flush n word rest ≡ (or_empty word ++ slashes n) ∷ rest
flushed zero none rest h = cc
flushed zero (some w) rest h = refl
flushed (suc n) none rest h = refl
flushed (suc n) (some w) rest h = refl

read_end :
    (n : ℕ) (word : Option Text) (t : Text)
    → IsEnd t
    → is_started word n [] ≡ true
    → read_arguments false n word t ≡ (or_empty word ++ slashes n) ∷ after t
unfolding read_arguments
read_end n word [] i h = flushed n word [] h
read_end n word (c ∷ t) i h =
    subst
      (λ d.
        read_arguments false n word (d ∷ t)
        ≡ (or_empty word ++ slashes n) ∷ read_arguments false zero none t)
      (sym i) (flushed n word (read_arguments false zero none t) h)

write_open_end : (n : ℕ) → write_arg false (slashes n) [] ≡ slashes n ++ []
unfolding write_arg
write_open_end n = refl

abbrev Plain : ℕ → Text → ℕ → Option Text → Text → Type 0
Plain c arg n word t =
    read_arguments false zero word (write_arg false (slashes n) (c ∷ arg) ++ t)
    ≡ (or_empty word ++ (slashes n ++ c ∷ arg)) ∷ after t

-- An argument without quotes.
read_plain :
    (arg : Text) (n : ℕ) (word : Option Text) (t : Text)
    → has_blank arg ≡ false
    → is_started word n arg ≡ true
    → IsEnd t
    → read_arguments false zero word (write_arg false (slashes n) arg ++ t)
      ≡ (or_empty word ++ (slashes n ++ arg)) ∷ after t
read_plain [] n word t b h i =
    ap (λ x. read_arguments false zero word (x ++ t)) (write_open_end n ∙ append-nil (slashes n))
    ∙ held_slashes false n word t
    ∙ read_end n word t i h
    ∙ ap (λ x. (or_empty word ++ x) ∷ after t) (sym (append-nil (slashes n)))
read_plain (c ∷ arg) n word t b h i = elim (char_cases c) [
  | inl e ↦
      subst (λ d. Plain d arg n word t) (sym e)
        (ap (λ x. read_arguments false zero word (x ++ t)) (write_slash false n arg)
          ∙ read_plain arg (suc n) word t (no_more c arg b) (started_held word n arg) i
          ∙ ap (λ x. (or_empty word ++ x) ∷ after t) (slash_front n arg))
  | inr (inl e) ↦
      subst (λ d. Plain d arg n word t) (sym e)
        (ap (read_arguments false zero word) (quote_front false n arg t)
          ∙ read_escape false n word (write_arg false [] arg ++ t)
          ∙ read_plain arg zero (some ((or_empty word ++ slashes n) ++ double_quote ∷ [])) t
              (no_more c arg b)
              (started_some ((or_empty word ++ slashes n) ++ double_quote ∷ []) zero arg) i
          ∙ ap (λ x. x ∷ after t)
              (append_assoc (or_empty word ++ slashes n) (double_quote ∷ []) arg
                ∙ append_assoc (or_empty word) (slashes n) (double_quote ∷ arg)))
  | inr (inr (e, k)) ↦
      ap (read_arguments false zero word) (other_front false n c arg t e k)
      ∙ held_slashes false n word (c ∷ (write_arg false [] arg ++ t))
      ∙ read_other false n word c (write_arg false [] arg ++ t) e k (no_blank c arg b)
      ∙ read_plain arg zero (some (or_empty word ++ (slashes n ++ c ∷ []))) t (no_more c arg b)
          (started_some (or_empty word ++ (slashes n ++ c ∷ [])) zero arg) i
      ∙ ap (λ x. x ∷ after t)
          (append_assoc (or_empty word) (slashes n ++ c ∷ []) arg
            ∙ ap (λ x. or_empty word ++ x) (append_assoc (slashes n) (c ∷ []) arg))
]
  where
    no_more : (c : ℕ) (arg : Text) → has_blank (c ∷ arg) ≡ false → has_blank arg ≡ false
    no_more c arg h = ground arith

    no_blank : (c : ℕ) (arg : Text) → has_blank (c ∷ arg) ≡ false → (is_blank c && true) ≡ false
    no_blank c arg h = ground arith

in_quotes_form :
    (arg : Text) → needs_quotes arg ≡ true → cmdline_arg arg ≡ double_quote ∷ write_arg true [] arg
in_quotes_form arg e = rw e refl

plain_form : (arg : Text) → needs_quotes arg ≡ false → cmdline_arg arg ≡ write_arg false [] arg
plain_form arg e = rw e refl

read_arg :
    (arg t : Text) → IsEnd t → read_arguments false zero none (cmdline_arg arg ++ t) ≡ arg ∷ after t
read_arg arg t i = elim (Bool-cases (needs_quotes arg)) [
  | inl e ↦
      ap (λ x. read_arguments false zero none (x ++ t)) (in_quotes_form arg e)
      ∙ read_toggle false zero none (write_arg true [] arg ++ t)
      ∙ read_quoted arg zero [] t
      ∙ read_end zero (some arg) t i refl
      ∙ ap (λ x. x ∷ after t) (append-nil arg)
  | inr e ↦
      ap (λ x. read_arguments false zero none (x ++ t)) (plain_form arg e)
      ∙ read_plain arg zero none t (ground arith) (begun arg e) i
]
  where
    begun : (arg : Text) → needs_quotes arg ≡ false → is_started none zero arg ≡ true
    begun [] h = cc
    begun (c ∷ arg) h = refl

-- A Windows program is given the arguments that the recipe was made for, whatever blanks, double
-- quotes and backslashes they have.
pub read_arguments-render_arguments :
    (args : List Text) → read_arguments false zero none (render_arguments args) ≡ args
unfolding render_arguments read_arguments
read_arguments-render_arguments [] = refl
read_arguments-render_arguments (a ∷ []) =
    ap (read_arguments false zero none) (sym (append-nil (cmdline_arg a))) ∙ read_arg a [] tt
read_arguments-render_arguments (a ∷ b ∷ args) =
    read_arg a (codes " " ++ join (codes " ") (map cmdline_arg (b ∷ args))) refl
    ∙ ap (λ x. a ∷ x) (read_arguments-render_arguments (b ∷ args))
