-- ===== src/Migrations/Statements.antt =====
-- What `split_sql` of src/cow_indexer/storage/migrations.py gives for a file that was written from
-- statements and comments.
use mathlib.Core.List.{append_assoc, append-nil}
use cow_indexer.Prelude.{
  ℕ, arith, ◌≡◌, refl, ◌∙◌, ap, sym, Bool, true, false, not, ◌&&◌, ◌||◌, List, [], ◌∷◌, ◌++◌, ◌==◌,
  every, All, Text, starts_with,
}
use cow_indexer.Migrations.{
  outside, quoted, in_comment, is_quote, is_space, step, lex, split_sql, statement_of, strip,
  strip_left, strip_right,
}

-- A character with no meaning of its own outside of a quote.
abbrev pub is_plain : ℕ → Bool
is_plain c = not (c == b'\'' || c == b'"' || c == b'`') && not (c == b';') && not (c == b'-')

-- The inside of a quoted text: anything but the quote and the backslash, or an escaped character.
pub data Quoted (q : ℕ) : Text → Type 0 where
  nil : Quoted q []
  char :
      {s : Text} (c : ℕ) → (c == b'\\') ≡ false → (c == q) ≡ false → Quoted q s → Quoted q (c ∷ s)
  escape : {s : Text} (c : ℕ) → Quoted q s → Quoted q (b'\\' ∷ c ∷ s)

-- Text that holds whole tokens: plain characters, minus signs that begin no comment, and quoted texts.
pub data Sql : Text → Type 0 where
  nil : Sql []
  plain : {s : Text} (c : ℕ) → is_plain c ≡ true → Sql s → Sql (c ∷ s)
  minus : {s : Text} (c : ℕ) → is_plain c ≡ true → Sql s → Sql (b'-' ∷ c ∷ s)
  string : {s t : Text} (q : ℕ) → is_quote q ≡ true → Quoted q t → Sql s → Sql (q ∷ (t ++ q ∷ s))

-- A statement on its own, as the program keeps it.
pub record IsStatement (s : Text) : Type 0 where
  pub whole : Sql s
  pub trimmed : strip s ≡ s
  pub first : ℕ
  pub others : Text
  pub non_empty : s ≡ first ∷ others

step-plain :
    (buffer : Text) (c : ℕ) (rest : Text)
    → is_plain c ≡ true
    → step outside buffer c rest ≡ (outside, buffer ++ c ∷ [], [])
unfolding step is_quote
step-plain buffer c rest h = ground arith

step-minus :
    (buffer : Text) (c : ℕ) (rest : Text)
    → is_plain c ≡ true
    → step outside buffer b'-' (c ∷ rest) ≡ (outside, buffer ++ b'-' ∷ [], [])
unfolding step is_quote starts_with
step-minus buffer c rest h = ground arith

step-quote :
    (buffer : Text) (q : ℕ) (rest : Text)
    → is_quote q ≡ true
    → step outside buffer q rest ≡ (quoted q, buffer ++ q ∷ [], [])
unfolding step is_quote
step-quote buffer q rest h = ground arith

step-char :
    (q : ℕ) (buffer : Text) (c : ℕ) (rest : Text)
    → (c == b'\\') ≡ false
    → (c == q) ≡ false
    → step (quoted q) buffer c rest ≡ (quoted q, buffer ++ c ∷ [], [])
unfolding step
step-char q buffer c rest h k = rw (h, k) refl

-- The closing quote, which is no backslash.
step-close :
    (q : ℕ) (buffer rest : Text)
    → is_quote q ≡ true
    → step (quoted q) buffer q rest ≡ (outside, buffer ++ q ∷ [], [])
unfolding step is_quote
step-close q buffer rest h = ground arith

lex-Quoted :
    {q : ℕ} {t : Text} (buffer rest : Text)
    → Quoted q t
    → lex (quoted q) buffer (t ++ rest) ≡ lex (quoted q) (buffer ++ t) rest
unfolding lex
lex-Quoted buffer rest nil = rw (append-nil buffer) refl
lex-Quoted {q} buffer rest (char {s} c unescaped other more) =
    rw (step-char q buffer c (s ++ rest) unescaped other) (
      lex-Quoted (buffer ++ c ∷ []) rest more
      ∙ ap (λ b. lex (quoted q) b rest) (append_assoc buffer (c ∷ []) s))
lex-Quoted {q} buffer rest (escape {s} c more) =
    lex-Quoted ((buffer ++ b'\\' ∷ []) ++ c ∷ []) rest more
    ∙ ap (λ b. lex (quoted q) b rest)
        (append_assoc (buffer ++ b'\\' ∷ []) (c ∷ []) s ∙ append_assoc buffer (b'\\' ∷ []) (c ∷ s))

-- Whole tokens only fill the buffer.
lex-Sql :
    {s : Text} (buffer rest : Text)
    → Sql s
    → lex outside buffer (s ++ rest) ≡ lex outside (buffer ++ s) rest
unfolding lex
lex-Sql buffer rest nil = rw (append-nil buffer) refl
lex-Sql buffer rest (plain {s} c h more) = rw (step-plain buffer c (s ++ rest) h) (
    lex-Sql (buffer ++ c ∷ []) rest more
    ∙ ap (λ b. lex outside b rest) (append_assoc buffer (c ∷ []) s))
lex-Sql buffer rest (minus {s} c h more) =
    rw (step-minus buffer c (s ++ rest) h, step-plain (buffer ++ b'-' ∷ []) c (s ++ rest) h)
      (lex-Sql ((buffer ++ b'-' ∷ []) ++ c ∷ []) rest more
        ∙ ap (λ b. lex outside b rest)
            (append_assoc (buffer ++ b'-' ∷ []) (c ∷ []) s
              ∙ append_assoc buffer (b'-' ∷ []) (c ∷ s)))
lex-Sql buffer rest (string {s} {t} q h inside more) =
    rw (step-quote buffer q ((t ++ q ∷ s) ++ rest) h, append_assoc t (q ∷ s) rest)
      (lex-Quoted (buffer ++ q ∷ []) (q ∷ s ++ rest) inside
        ∙ rw (step-close q ((buffer ++ q ∷ []) ++ t) (s ++ rest) h) (
            lex-Sql (((buffer ++ q ∷ []) ++ t) ++ q ∷ []) rest more
            ∙ ap (λ b. lex outside b rest)
                (append_assoc ((buffer ++ q ∷ []) ++ t) (q ∷ []) s
                  ∙ append_assoc (buffer ++ q ∷ []) t (q ∷ s)
                  ∙ append_assoc buffer (q ∷ []) (t ++ q ∷ s))))

-- White space in front is stripped.
strip-append : (w s : Text) → every is_space w ≡ true → strip (w ++ s) ≡ strip s
unfolding strip strip_left is_space
strip-append w s h = ap strip_right (left w h)
  where
    left : (w : Text) → every is_space w ≡ true → strip_left (w ++ s) ≡ strip_left s
    left [] h = refl
    left (c ∷ cs) h = ground (arith, left cs)

-- A comment is left out, but for the end of its line.
lex-comment :
    (buffer comment rest : Text)
    → every (λ c. not (c == b'\n')) comment ≡ true
    → lex in_comment buffer (comment ++ b'\n' ∷ rest) ≡ lex outside (buffer ++ b'\n' ∷ []) rest
unfolding lex step
lex-comment buffer [] rest h = refl
lex-comment buffer (c ∷ cs) rest h = ground (arith, lex-comment buffer cs rest)

-- A file: lines of comment, and statements with a semicolon behind each.
pub data Part : Type 0 where
  comment : Text → Part
  statement : Text → Part

unfoldable pub render : List Part → Text
render [] = []
render (comment text ∷ parts) = b'-' ∷ b'-' ∷ (text ++ b'\n' ∷ render parts)
render (statement text ∷ parts) = text ++ b';' ∷ b'\n' ∷ render parts

unfoldable pub statements : List Part → List Text
statements [] = []
statements (comment text ∷ parts) = statements parts
statements (statement text ∷ parts) = text ∷ statements parts

abbrev pub IsPart : Part → Type 0
IsPart (comment text) = every (λ c. not (c == b'\n')) text ≡ true
IsPart (statement text) = IsStatement text

space-append : (w : Text) → every is_space w ≡ true → every is_space (w ++ b'\n' ∷ []) ≡ true
unfolding is_space
space-append [] h = refl
space-append (c ∷ cs) h = ground (arith, space-append cs)

space_newline : every is_space (b'\n' ∷ []) ≡ true
unfolding is_space
space_newline = refl

statement_of-IsStatement :
    (w s : Text) → every is_space w ≡ true → IsStatement s → statement_of (strip (w ++ s)) ≡ s ∷ []
unfolding statement_of
statement_of-IsStatement w s k one =
    ap statement_of (strip-append w s k ∙ one.trimmed ∙ one.non_empty)
    ∙ ap (λ t. t ∷ []) (sym one.non_empty)

lex-render :
    (parts : List Part) (w : Text)
    → All IsPart parts
    → every is_space w ≡ true
    → lex outside w (render parts) ≡ statements parts
unfolding render statements lex starts_with
lex-render [] w h k = ap statement_of (ap strip (sym (append-nil w)) ∙ strip-append w [] k)
lex-render (comment text ∷ parts) w (one, h) k =
    lex-comment w text (render parts) one ∙ lex-render parts (w ++ b'\n' ∷ []) h (space-append w k)
lex-render (statement text ∷ parts) w (one, h) k =
    lex-Sql w (b';' ∷ b'\n' ∷ render parts) one.whole
    ∙ rw (statement_of-IsStatement w text k one)
        (ap (◌∷◌ text) (lex-render parts (b'\n' ∷ []) h space_newline))

-- A file is split into the statements that it was written from. Let the statements be whole tokens
-- (semicolons, quotes of another kind and escaped characters may stand inside their quoted texts),
-- with no white space around them and not empty, and let no comment hold the end of a line: then
-- `split_sql` gives the statements, in their order, and nothing of the comments, whatever stands in
-- these.
pub split_sql-render :
    (parts : List Part) → All IsPart parts → split_sql (render parts) ≡ statements parts
unfolding split_sql
split_sql-render parts h = lex-render parts [] h refl
