-- ===== src/Tracing/Posix/Recipes.antt =====
-- A recipe of src/flnr/command_tracing/platform/_posix.py, read by the shell, is the command.
use flnr.Base.{
  ◌≡◌, refl, sym, ap, ap₂, ◌∙◌, true, false, none, some, List, [], ◌∷◌, ◌++◌, if◌then◌else◌,
  append-nil, append_assoc, map, Bool-cases, inl, inr,
}
use flnr.Base.Text.{Text, codes, join}
use flnr.Outcome.{ok}
use flnr.Tracing.EnvListing.{Env, EnvListing}
use flnr.Tracing.Posix.{
  quote, lists_something, render_path_assignment, render_assignment, render_compact_recipe,
  render_env_parts, render_recipe,
}
use flnr.Tracing.Posix.Shell.{read, close, shell_words}
use flnr.Tracing.Posix.Quoting.{outside, read-quote}

-- A part of a line, and the words that the shell reads it as, where a word may begin.
record Piece : Type 0 where
  text : Text
  first : List Text
  last : Text
  law :
      (words : List Text) (rest : Text)
      → read (outside false [] words) (text ++ rest)
        ≡ read (outside true last (words ++ first)) rest

abbrev words_of : List Piece → List Text
words_of [] = []
words_of (p ∷ ps) = p.first ++ p.last ∷ words_of ps

abbrev texts_of : List Piece → List Text
texts_of [] = []
texts_of (p ∷ ps) = p.text ∷ texts_of ps

read-space :
    (words : List Text) (word rest : Text)
    → read (outside true word words) (codes " " ++ rest)
      ≡ read (outside false [] (words ++ word ∷ [])) rest
unfolding read
read-space words word rest = refl

close-read-nil :
    (words : List Text) (word : Text)
    → close (read (outside true word words) []) ≡ some (words ++ word ∷ [])
unfolding read
close-read-nil words word = refl

-- Pieces joined by blanks are read as their words.
read-join :
    (words : List Text) (ps : List Piece)
    → close (read (outside false [] words) (join (codes " ") (texts_of ps)))
      ≡ some (words ++ words_of ps)
read-join words [] = unfold read in rw append-nil
read-join words (p ∷ []) =
    ap (λ t. close (read (outside false [] words) t)) (sym (append-nil p.text))
    ∙ ap close (p.law words [])
    ∙ close-read-nil (words ++ p.first) p.last
    ∙ rw append_assoc
read-join words (p ∷ q ∷ ps) =
    ap close (p.law words (codes " " ++ join (codes " ") (texts_of (q ∷ ps))))
    ∙ ap close (read-space (words ++ p.first) p.last (join (codes " ") (texts_of (q ∷ ps))))
    ∙ read-join ((words ++ p.first) ++ p.last ∷ []) (q ∷ ps)
    ∙ rw (append_assoc, append_assoc)

abbrev quoted : Text → Piece
quoted s = record {
  text = quote s;
  first = [];
  last = s;
  law = λ words rest. rw append-nil (read-quote words false [] s rest);
}

env_law :
    (words : List Text) (rest : Text)
    → read (outside false [] words) (codes "env" ++ rest)
      ≡ read (outside true (codes "env") (words ++ [])) rest
unfolding read
env_law words rest = rw append-nil

clear_law :
    (words : List Text) (rest : Text)
    → read (outside false [] words) (codes "-i" ++ rest)
      ≡ read (outside true (codes "-i") (words ++ [])) rest
unfolding read
clear_law words rest = rw append-nil

read-unset :
    (words : List Text) (rest : Text)
    → read (outside false [] words) (codes "-u " ++ rest)
      ≡ read (outside false [] (words ++ codes "-u" ∷ [])) rest
unfolding read
read-unset words rest = refl

abbrev unset : Text → Piece
unset name = record {
  text = codes "-u " ++ quote name;
  first = codes "-u" ∷ [];
  last = name;
  law = λ words rest.
      read-unset words (quote name ++ rest)
      ∙ read-quote (words ++ codes "-u" ∷ []) false [] name rest;
}

read-equals :
    (words : List Text) (word rest : Text)
    → read (outside true word words) (codes "=" ++ rest)
      ≡ read (outside true (word ++ codes "=") words) rest
unfolding read
read-equals words word rest = refl

abbrev assigned : Text → Text → Piece
assigned key value = record {
  text = quote key ++ (codes "=" ++ quote value);
  first = [];
  last = (key ++ codes "=") ++ value;
  law = λ words rest.
      rw (append-nil, append_assoc)
        (read-quote words false [] key ((codes "=" ++ quote value) ++ rest)
          ∙ read-equals words key (quote value ++ rest)
          ∙ read-quote words true (key ++ codes "=") value rest);
}

abbrev env_piece : Piece
env_piece = record { text = codes "env"; first = []; last = codes "env"; law = env_law }

abbrev clear_piece : Piece
clear_piece = record { text = codes "-i"; first = []; last = codes "-i"; law = clear_law }

-- No listed variable is shown by reference to the host's PATH.
abbrev pub AreLiteral : List (Text × Text) → Env → Type 0
AreLiteral [] host_env = Unit
AreLiteral ((key, value) ∷ variables) host_env =
    (render_path_assignment key value host_env ≡ none) × AreLiteral variables host_env

-- The words that stand for a listing and a command: `env`, `-i` or `-u NAME` for each removed
-- variable, `NAME=value` for each listed one, and the command.
abbrev pub removal_words : List Text → List Text
removal_words [] = []
removal_words (name ∷ names) = codes "-u" ∷ name ∷ removal_words names

abbrev pub assignment_words : List (Text × Text) → List Text
assignment_words [] = []
assignment_words ((key, value) ∷ variables) =
    ((key ++ codes "=") ++ value) ∷ assignment_words variables

abbrev pub env_words : EnvListing → List Text
env_words listing =
    if lists_something listing
    then codes "env"
      ∷ ((if listing.clear_environment
            then codes "-i" ∷ []
            else removal_words listing.removed_variables)
          ++ assignment_words listing.variables)
    else []

-- A list of pieces with its texts and its words.
record Spells (texts words : List Text) : Type 0 where
  pieces : List Piece
  same_texts : texts_of pieces ≡ texts
  same_words : words_of pieces ≡ words

texts_of-append : (ps qs : List Piece) → texts_of (ps ++ qs) ≡ texts_of ps ++ texts_of qs
texts_of-append [] qs = refl
texts_of-append (p ∷ ps) qs = ap (λ t. p.text ∷ t) (texts_of-append ps qs)

words_of-append : (ps qs : List Piece) → words_of (ps ++ qs) ≡ words_of ps ++ words_of qs
words_of-append [] qs = refl
words_of-append (p ∷ ps) qs = rw (words_of-append ps qs, append_assoc)

Spells-append :
    {ts us vs ws : List Text} → Spells ts vs → Spells us ws → Spells (ts ++ us) (vs ++ ws)
Spells-append a b = record {
  pieces = a.pieces ++ b.pieces;
  same_texts = texts_of-append a.pieces b.pieces ∙ ap₂ (λ s t. s ++ t) a.same_texts b.same_texts;
  same_words = words_of-append a.pieces b.pieces ∙ ap₂ (λ s t. s ++ t) a.same_words b.same_words;
}

Spells-nil : Spells [] []
Spells-nil = record { pieces = []; same_texts = refl; same_words = refl }

Spells-one : (p : Piece) → Spells (p.text ∷ []) (p.first ++ p.last ∷ [])
Spells-one p = record { pieces = p ∷ []; same_texts = refl; same_words = refl }

Spells-quoted : (args : List Text) → Spells (map quote args) args
Spells-quoted [] = Spells-nil
Spells-quoted (arg ∷ args) = Spells-append (Spells-one (quoted arg)) (Spells-quoted args)

Spells-unset :
    (names : List Text)
    → Spells (map (λ variable. codes "-u " ++ quote variable) names) (removal_words names)
Spells-unset [] = Spells-nil
Spells-unset (name ∷ names) = Spells-append (Spells-one (unset name)) (Spells-unset names)

Spells-removals :
    (listing : EnvListing)
    → Spells
        (if listing.clear_environment
          then codes "-i" ∷ []
          else map (λ variable. codes "-u " ++ quote variable) listing.removed_variables)
        (if listing.clear_environment
          then codes "-i" ∷ []
          else removal_words listing.removed_variables)
Spells-removals listing = elim (Bool-cases listing.clear_environment) [
  | inl cleared ↦ rw cleared (Spells-one clear_piece)
  | inr inherited ↦ rw inherited (Spells-unset listing.removed_variables)
]

literal_assignment :
    (key value : Text) (host_env : Env)
    → render_path_assignment key value host_env ≡ none
    → render_assignment host_env (key, value) ≡ quote key ++ (codes "=" ++ quote value)
unfolding render_assignment
literal_assignment key value host_env plain = rw (plain, render_assignment)

Spells-assigned :
    (variables : List (Text × Text)) (host_env : Env)
    → AreLiteral variables host_env
    → Spells (map (render_assignment host_env) variables) (assignment_words variables)
Spells-assigned [] host_env h = Spells-nil
Spells-assigned ((key, value) ∷ variables) host_env (plain, h) =
    rw (literal_assignment key value host_env plain)
      (Spells-append (Spells-one (assigned key value)) (Spells-assigned variables host_env h))

Spells-env :
    (listing : EnvListing) (host_env : Env)
    → AreLiteral listing.variables host_env
    → Spells (render_env_parts listing host_env) (env_words listing)
unfolding render_env_parts
Spells-env listing host_env h = elim (Bool-cases (lists_something listing)) [
  | inl some_listed ↦ rw some_listed (
      Spells-append (Spells-one env_piece)
        (Spells-append (Spells-removals listing) (Spells-assigned listing.variables host_env h)))
  | inr nothing ↦ rw nothing Spells-nil
]

-- In the compact style a recipe is one line, which the shell reads as the words that stand for the
-- listing and the command, whatever characters the arguments, names and values hold, if no listed
-- variable is shown by reference to the host's PATH.
pub render_recipe-shell_words :
    (arg : Text) (args : List Text) (listing : EnvListing) (host_env : Env)
    → AreLiteral listing.variables host_env
    → (line : Text) × (render_recipe none (arg ∷ args) listing host_env ≡ ok line)
      × (shell_words line ≡ some (env_words listing ++ arg ∷ args))
unfolding render_recipe render_compact_recipe shell_words
render_recipe-shell_words arg args listing host_env h =
    let s = Spells-append (Spells-env listing host_env h) (Spells-quoted (arg ∷ args)) in
    (
      join (codes " ") (render_env_parts listing host_env ++ map quote (arg ∷ args)),
      refl,
      rw (← s.same_texts) (read-join [] s.pieces ∙ ap some s.same_words),
    )
