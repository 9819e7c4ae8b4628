-- ===== src/Tracing/Windows/Quoting.antt =====
-- PowerShell reads back what `_quote` of src/flnr/command_tracing/platform/_windows.py wrote.
use flnr.Base.{
  ℕ, ◌≡◌, refl, sym, ap, ◌∙◌, true, false, some, List, [], ◌∷◌, ◌++◌, ◌==◌, map, append_assoc,
  append-nil, All, Bool-cases, inl, inr,
}
use mathlib.Core.Option
use flnr.Base.Text.{Text, codes, join}
use flnr.Tracing.Posix.{single_quote}
use flnr.Tracing.Windows.{double_quotes, ps_quote, command_line}
use flnr.Tracing.Windows.PowerShell.{
  is_typographic, is_quote, push, literal, quoted, opening, inside, closing, words, command_words,
}

-- No character is a typographic quote.
abbrev pub IsPlain : Text → Type 0
IsPlain s = All (λ c. is_typographic c ≡ false) s

-- A text that does not go on with a quote.
abbrev pub NoQuote : Text → Type 0
NoQuote [] = Unit
NoQuote (c ∷ s) = is_quote c ≡ false

literal_end : (s : Text) → NoQuote s → literal true s ≡ some ([], s)
unfolding literal
literal_end [] n = refl
literal_end (c ∷ s) n = rw n

quote_is_quote : (c : ℕ) → (c == single_quote) ≡ true → is_quote c ≡ true
quote_is_quote c e = rw e

other_is_not : (c : ℕ) → (c == single_quote) ≡ false → is_typographic c ≡ false → is_quote c ≡ false
other_is_not c e p = rw (e, p)

doubled :
    (c : ℕ) (v : Text)
    → (c == single_quote) ≡ true
    → double_quotes (c ∷ v) ≡ c ∷ c ∷ double_quotes v
unfolding double_quotes
doubled c v e = rw e

single :
    (c : ℕ) (v : Text) → (c == single_quote) ≡ false → double_quotes (c ∷ v) ≡ c ∷ double_quotes v
unfolding double_quotes
single c v e = rw e

literal_twice :
    (c : ℕ) (t : Text) → is_quote c ≡ true → literal false (c ∷ c ∷ t) ≡ push c (literal false t)
unfolding literal
literal_twice c t q = rw q

literal_other :
    (c : ℕ) (t : Text) → is_quote c ≡ false → literal false (c ∷ t) ≡ push c (literal false t)
unfolding literal
literal_other c t q = rw q

-- The literal of a text, then its closing quote.
pub literal-double_quotes :
    (v s : Text)
    → IsPlain v
    → NoQuote s
    → literal false (double_quotes v ++ single_quote ∷ s) ≡ some (v, s)
unfolding literal double_quotes
literal-double_quotes [] s p n = literal_end s n
literal-double_quotes (c ∷ v) s (p, ps) n =
    let ih = literal-double_quotes v s ps n in
    elim (Bool-cases (c == single_quote)) [
      | inl e ↦
          ap (λ t. literal false (t ++ single_quote ∷ s)) (doubled c v e)
          ∙ literal_twice c (double_quotes v ++ single_quote ∷ s) (quote_is_quote c e)
          ∙ ap (push c) ih
      | inr e ↦
          ap (λ t. literal false (t ++ single_quote ∷ s)) (single c v e)
          ∙ literal_other c (double_quotes v ++ single_quote ∷ s) (other_is_not c e p)
          ∙ ap (push c) ih
    ]

pub quoted-ps_quote : (v s : Text) → IsPlain v → NoQuote s → quoted (ps_quote v ++ s) ≡ some (v, s)
unfolding ps_quote
quoted-ps_quote v s p n =
    ap (literal false) (append_assoc (double_quotes v) (single_quote ∷ []) s)
    ∙ literal-double_quotes v s p n

words_twice :
    (w : Text) (c : ℕ) (t : Text)
    → is_quote c ≡ true
    → words inside w (c ∷ c ∷ t) ≡ words inside (w ++ c ∷ []) t
unfolding words
words_twice w c t q = rw q

words_other :
    (w : Text) (c : ℕ) (t : Text)
    → is_quote c ≡ false
    → words inside w (c ∷ t) ≡ words inside (w ++ c ∷ []) t
unfolding words
words_other w c t q = rw q

words-double_quotes :
    (w v s : Text)
    → IsPlain v
    → words inside w (double_quotes v ++ single_quote ∷ s) ≡ words closing (w ++ v) s
unfolding words double_quotes
words-double_quotes w [] s p = ap (λ u. words closing u s) (sym (append-nil w))
words-double_quotes w (c ∷ v) s (p, ps) =
    let ih =
      words-double_quotes (w ++ c ∷ []) v s ps
      ∙ ap (λ u. words closing u s) (append_assoc w (c ∷ []) v) in
    elim (Bool-cases (c == single_quote)) [
      | inl e ↦
          ap (λ t. words inside w (t ++ single_quote ∷ s)) (doubled c v e)
          ∙ words_twice w c (double_quotes v ++ single_quote ∷ s) (quote_is_quote c e)
          ∙ ih
      | inr e ↦
          ap (λ t. words inside w (t ++ single_quote ∷ s)) (single c v e)
          ∙ words_other w c (double_quotes v ++ single_quote ∷ s) (other_is_not c e p)
          ∙ ih
    ]

-- A word, where a word may begin.
words-ps_quote : (v s : Text) → IsPlain v → words opening [] (ps_quote v ++ s) ≡ words closing v s
unfolding words ps_quote
words-ps_quote v s p =
    ap (words inside []) (append_assoc (double_quotes v) (single_quote ∷ []) s)
    ∙ words-double_quotes [] v s p

words_end : (v : Text) → words closing v [] ≡ some (v ∷ [])
unfolding words
words_end v = refl

words_next :
    (v s : Text) → words closing v (32 ∷ s) ≡ Option.map (λ ws. v ∷ ws) (words opening [] s)
unfolding words
words_next v s = refl

words-join :
    (v : Text) (vs : List Text)
    → All IsPlain (v ∷ vs)
    → words opening [] (join (codes " ") (map ps_quote (v ∷ vs))) ≡ some (v ∷ vs)
words-join v [] (p, ps) =
    ap (words opening []) (sym (append-nil (ps_quote v))) ∙ words-ps_quote v [] p ∙ words_end v
words-join v (u ∷ vs) (p, ps) =
    words-ps_quote v (32 ∷ join (codes " ") (map ps_quote (u ∷ vs))) p
    ∙ words_next v (join (codes " ") (map ps_quote (u ∷ vs)))
    ∙ ap (Option.map (λ ws. v ∷ ws)) (words-join u vs ps)

-- PowerShell takes the words of the command back from a recipe that lists nothing of the
-- environment, provided that no word has a typographic quote.
pub command_words-command_line :
    (v : Text) (vs : List Text)
    → All IsPlain (v ∷ vs)
    → command_words (command_line (v ∷ vs)) ≡ some (v ∷ vs)
unfolding command_words words
command_words-command_line v vs p = words-join v vs p
