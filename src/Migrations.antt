-- ===== src/Migrations.antt =====
-- The migrations: `split_sql` and `quote_database` of src/cow_indexer/storage/migrations.py, and
-- `migrate` of src/cow_indexer/storage/clickhouse.py. The white space that `strip` removes is that of
-- Latin-1.
pub mod Statements
pub mod Names
pub mod Applied
use cow_indexer.Prelude.{
  ℕ, zero, suc, ◌-◌, ◌∷◌, ◌++◌, [], ◌==◌, ◌&&◌, ◌||◌, not, Bool, List, Result, Text, codes, drop,
  err, every, false, if◌then◌else◌, leb, length, ok, starts_with, text_eq, true, none, some, Option,
}
use cow_indexer.Exec.{Exec, go_on, raising, returning, ◌>>=◌, ◌>>◌}
use cow_indexer.Loader.{is_one_of}

unfoldable pub is_letter : ℕ → Bool
is_letter c = (leb b'A' c && leb c b'Z') || (leb b'a' c && leb c b'z') || c == b'_'

unfoldable pub is_word : ℕ → Bool
unfolding is_letter
is_word c = is_letter c || (leb b'0' c && leb c b'9')

-- DATABASE_RE.
unfoldable pub is_name : Text → Bool
unfolding is_letter is_word
is_name [] = false
is_name (c ∷ cs) = is_letter c && every is_word cs

pub data NameError : Type 0 where
  invalid_name : NameError

unfoldable pub quote_database : Text → Result NameError Text
quote_database name = if is_name name then ok (b'`' ∷ (name ++ b'`' ∷ [])) else err invalid_name

unfoldable pub is_space : ℕ → Bool
is_space c = (leb 9 c && leb c 13) || (leb 28 c && leb c 32) || c == 133 || c == 160

unfoldable pub strip_left : Text → Text
unfolding is_space
strip_left [] = []
strip_left (c ∷ cs) = let rest = strip_left cs in if is_space c then rest else c ∷ cs

abbrev keep_last : ℕ → Text → Text
keep_last c [] = if is_space c then [] else c ∷ []
keep_last c (d ∷ ds) = c ∷ d ∷ ds

unfoldable pub strip_right : Text → Text
unfolding is_space
strip_right [] = []
strip_right (c ∷ cs) = keep_last c (strip_right cs)

unfoldable pub strip : Text → Text
unfolding strip_left strip_right
strip s = strip_right (strip_left s)

-- Where the lexer stands: the quote, whether the next character is escaped, or inside a comment.
pub data Mode : Type 0 where
  outside : Mode
  quoted : ℕ → Mode
  escaped : ℕ → Mode
  in_comment : Mode

unfoldable pub is_quote : ℕ → Bool
is_quote c = c == b'\'' || c == b'"' || c == b'`'

-- `if statement: statements.append(statement)`.
unfoldable pub statement_of : Text → List Text
statement_of [] = []
statement_of (c ∷ cs) = (c ∷ cs) ∷ []

-- The new mode, buffer and statements after one character; the rest is only looked at.
abbrev Lexed : Type 0
Lexed = Mode × Text × List Text

unfoldable pub step : Mode → Text → ℕ → Text → Lexed
unfolding is_quote statement_of strip
step outside buffer c rest =
    if c == b'-' && starts_with (b'-' ∷ []) rest
    then (in_comment, buffer, [])
    else if is_quote c
    then (quoted c, buffer ++ c ∷ [], [])
    else if c == b';'
    then (outside, [], statement_of (strip buffer))
    else (outside, buffer ++ c ∷ [], [])
step (quoted q) buffer c rest =
    if c == b'\\'
    then (escaped q, buffer ++ c ∷ [], [])
    else if c == q
    then (outside, buffer ++ c ∷ [], [])
    else (quoted q, buffer ++ c ∷ [], [])
step (escaped q) buffer c rest = (quoted q, buffer ++ c ∷ [], [])
step in_comment buffer c rest =
    if c == b'\n' then (outside, buffer ++ c ∷ [], []) else (in_comment, buffer, [])

unfoldable pub lex : Mode → Text → Text → List Text
unfolding step
lex mode buffer [] = statement_of (strip buffer)
lex mode buffer (c ∷ cs) =
    let (mode', buffer', statements) = step mode buffer c cs in statements ++ lex mode' buffer' cs

unfoldable pub split_sql : Text → List Text
split_sql source = lex outside [] source

-- `source.replace(old, new)`, where so many characters are still of the last occurrence.
unfoldable pub replace_from : ℕ → Text → Text → Text → Text
replace_from skip old new [] = []
replace_from (suc skip) old new (c ∷ cs) = replace_from skip old new cs
replace_from zero old new (c ∷ cs) = elim (starts_with old (c ∷ cs)) [
  | true ↦ new ++ replace_from (length old - 1) old new cs
  | false ↦ c ∷ replace_from 0 old new cs
]

-- A migration file: the stem of its name, and its text.
pub record Migration : Type 0 where
  pub version : Text
  pub source : Text

-- What the database has been told, newest first, and the versions of `schema_migrations`.
pub record Database : Type 0 where
  pub commands : List Text
  pub versions : List Text

pub data Refusal : Type 0 where
  refused : Refusal

abbrev pub Migrating : Type 0 → Type 0
Migrating A = Exec Database Refusal A

-- Whether the database takes a command, by the number of those before it, and an insert.
module _ (takes : ℕ → Text → Bool) (records : ℕ → Text → Bool) (quoted_database : Text) where
  unfoldable pub command : Text → Migrating (Unit {0})
  command statement d =
      if takes (length d.commands) statement
      then (ok tt, record d { commands = statement ∷ d.commands })
      else (err refused, d)

  unfoldable pub run_all : List Text → Migrating (Unit {0})
  unfolding command
  run_all [] = returning tt
  run_all (statement ∷ statements) = do command statement; run_all statements

  unfoldable pub record_version : Text → Migrating (Unit {0})
  record_version version d =
      if records (length d.versions) version
      then (ok tt, record d { versions = version ∷ d.versions })
      else (err refused, d)

  abbrev pub statements_of : Migration → List Text
  statements_of m = split_sql (replace_from 0 (codes "__DATABASE__") quoted_database m.source)

  unfoldable pub apply : Migration → Migrating (Unit {0})
  unfolding run_all record_version
  apply m = do run_all (statements_of m); record_version m.version

  -- The loop over the files; `applied` was read before it.
  unfoldable pub apply_new : List Text → List Migration → Migrating (List Text)
  unfolding apply
  apply_new applied [] d = (ok [], d)
  apply_new applied (m ∷ ms) d = elim (is_one_of m.version applied) [
    | true ↦ apply_new applied ms d
    | false ↦
        go_on (apply m d)
          (λ done d'. go_on (apply_new applied ms d') (λ later d''. (ok (m.version ∷ later), d'')))
  ]

  unfoldable pub migrate : List Migration → Migrating (List Text)
  unfolding apply_new
  migrate files d = apply_new d.versions files d
