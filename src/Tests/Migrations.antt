-- ===== src/Tests/Migrations.antt =====
-- Runs of the lexer of statements and of the migrations.
use cow_indexer.Prelude.{
  ◌≡◌, refl, true, not, List, In, [], ◌∷◌, ◌++◌, All, Text, codes, keep, map, ok, text_eq,
  starts_with,
}
use cow_indexer.Loader.{is_one_of}
use cow_indexer.Migrations.{
  is_quote, is_space, is_name, is_letter, is_word, step, lex, split_sql, statement_of, strip,
  strip_left, strip_right, quote_database, replace_from, Migration, Database, migrate, apply_new,
  apply, run_all, command, record_version,
}
use cow_indexer.Migrations.Statements.{
  Quoted, Sql, IsStatement, Part, comment, statement, render, statements, IsPart, split_sql-render,
}
use cow_indexer.Migrations.Names.{quote_database-split, filled}
use cow_indexer.Migrations.Applied.{migrate-twice}

program : Unit {0}
unfolding is_quote is_space is_name is_letter is_word step lex split_sql statement_of strip
    strip_left strip_right quote_database replace_from migrate apply_new apply run_all command
    record_version is_one_of render statements text_eq starts_with
program = tt

quoted_semicolon :
    split_sql (codes "-- it's; a comment\nA ';' B;\n C") ≡ codes "A ';' B" ∷ codes "C" ∷ []
unfolding program
quoted_semicolon = refl

inside : Quoted b'\'' (codes ";--")
inside = Quoted.char _ refl refl (Quoted.char _ refl refl (Quoted.char _ refl refl Quoted.nil))

insert_IsStatement : IsStatement (codes "A ';--'")
unfolding program
insert_IsStatement = record {
  whole = Sql.plain _ refl (Sql.plain _ refl (Sql.string b'\'' refl inside Sql.nil));
  trimmed = refl;
  first = b'A';
  others = codes " ';--'";
  non_empty = refl;
}

parts : List Part
parts = comment (codes " don't; stop") ∷ statement (codes "A ';--'") ∷ []

parts-IsPart : All IsPart parts
unfolding parts
parts-IsPart = (refl, (insert_IsStatement, tt))

split_sql-render_example : split_sql (render parts) ≡ statements parts
split_sql-render_example = split_sql-render parts parts-IsPart

after_name : Sql (codes ".a")
after_name = Sql.plain _ refl (Sql.plain _ refl Sql.nil)

before_name : Sql (codes "A ")
before_name = Sql.plain _ refl (Sql.plain _ refl Sql.nil)

quote_database-split_example :
    split_sql
      (filled (codes "`cow_1`") (codes "A ") (codes ".a" ∷ []) ++ b';' ∷ b'\n' ∷ render parts)
    ≡ filled (codes "`cow_1`") (codes "A ") (codes ".a" ∷ []) ∷ statements parts
unfolding program filled
quote_database-split_example =
    quote_database-split (codes "cow_1") (codes "`cow_1`") (codes "A ") (codes ".a") [] parts refl
      before_name after_name tt refl parts-IsPart

files : List Migration
files =
    record { version = codes "001"; source = codes "CREATE __DATABASE__.a; CREATE b" }
    ∷ record { version = codes "002"; source = codes "ALTER __DATABASE__.a" }
    ∷ []

fresh : Database
fresh = record { commands = []; versions = codes "001" ∷ [] }

after : Database
unfolding files fresh
after = (migrate (λ n s. true) (λ n v. true) (codes "`d`") files fresh).1

altered : after.commands ≡ codes "ALTER `d`.a" ∷ []
unfolding program after files fresh
altered = refl

migrate-twice_example :
    (codes "002" ∷ []
      ≡ map (λ m. m.version) (keep (λ m. not (is_one_of m.version fresh.versions)) files))
    × ((version : Text) → In version fresh.versions → In version after.versions)
    × (migrate (λ n s. true) (λ n v. true) (codes "`d`") files after ≡ (ok [], after))
unfolding program after files fresh
migrate-twice_example =
    migrate-twice (λ n s. true) (λ n v. true) (codes "`d`") files (codes "002" ∷ []) fresh after
      refl
