-- ===== src/Migrations/Names.antt =====
-- The quoted database name in a migration: `quote_database` with `split_sql` of
-- src/cow_indexer/storage/migrations.py.
use mathlib.Core.List.{append_assoc}
use cow_indexer.Prelude.{
  ℕ, arith, ◌≡◌, refl, ◌∙◌, ap, sym, subst, true, false, List, [], ◌∷◌, ◌++◌, ◌==◌, every, All,
  Text, Bool-cases, inl, inr, ok,
}
use cow_indexer.Migrations.{is_quote, is_name, is_word, split_sql, strip, quote_database}
use cow_indexer.Migrations.Statements.{
  Quoted, nil, char, Sql, plain, minus, string, Part, statement, render, statements, IsPart,
  split_sql-render,
}

every-split :
    (c : ℕ) (cs : Text)
    → every is_word (c ∷ cs) ≡ true
    → (is_word c ≡ true) × (every is_word cs ≡ true)
every-split c cs h = (ground arith, ground arith)

word_escape : (c : ℕ) → is_word c ≡ true → (c == b'\\') ≡ false
unfolding is_word
word_escape c h = ground arith

word_quote : (c : ℕ) → is_word c ≡ true → (c == b'`') ≡ false
unfolding is_word
word_quote c h = ground arith

name_words : (name : Text) → is_name name ≡ true → every is_word name ≡ true
unfolding is_name is_word
name_words [] h = refl
name_words (c ∷ cs) h = ground arith

word-Quoted : (name : Text) → every is_word name ≡ true → Quoted b'`' name
word-Quoted [] h = nil
word-Quoted (c ∷ cs) h =
    let (one, more) = every-split c cs h in
    char c (word_escape c one) (word_quote c one) (word-Quoted cs more)

-- A database name that is accepted stands as one quoted token.
quote_database-Sql :
    (name r : Text) → quote_database name ≡ ok r → Sql r × (r ≡ b'`' ∷ (name ++ b'`' ∷ []))
unfolding quote_database
quote_database-Sql name r e = elim (Bool-cases (is_name name)) [
  | inl valid ↦
      let same : b'`' ∷ (name ++ b'`' ∷ []) ≡ r = cc (rw (valid, quote_database) at e) in
      (
        subst Sql same
            (string b'`' (unfold is_quote in refl) (word-Quoted name (name_words name valid)) nil),
        sym same,
      )
  | inr invalid ↦ absurd (cc (rw (invalid, quote_database) at e))
]

Sql-append : {a b : Text} → Sql a → Sql b → Sql (a ++ b)
Sql-append nil k = k
Sql-append (plain c h more) k = plain c h (Sql-append more k)
Sql-append (minus c h more) k = minus c h (Sql-append more k)
Sql-append {b} (string {s} {t} q h inside more) k =
    subst (λ u. Sql (q ∷ u)) (sym (append_assoc t (q ∷ s) b))
      (string q h inside (Sql-append more k))

-- A statement with a name between its pieces, as the placeholder of a migration stands in it.
unfoldable pub filled : Text → Text → List Text → Text
filled name piece [] = piece
filled name piece (next ∷ pieces) = piece ++ (name ++ filled name next pieces)

filled-Sql :
    (name piece : Text) (pieces : List Text)
    → Sql name
    → Sql piece
    → All Sql pieces
    → Sql (filled name piece pieces)
unfolding filled
filled-Sql name piece [] n h k = h
filled-Sql name piece (next ∷ pieces) n h (one, more) =
    Sql-append h (Sql-append n (filled-Sql name next pieces n one more))

non_empty_with :
    (a b : Text) (c : ℕ) → (first : ℕ) × (others : Text) × (a ++ (c ∷ b) ≡ first ∷ others)
non_empty_with [] b c = (c, b, refl)
non_empty_with (x ∷ xs) b c = (x, xs ++ (c ∷ b), refl)

-- An accepted database name breaks no statement that it is put into between whole tokens. Let a
-- statement be made of pieces of whole tokens with the quoted name between each two of them, one time
-- or more, and have no white space around it: then in front of any other statements and comments
-- `split_sql` gives it back as the one statement that it is, and then the other statements.
pub quote_database-split :
    (name quoted_name piece next : Text) (pieces : List Text) (parts : List Part)
    → quote_database name ≡ ok quoted_name
    → Sql piece
    → Sql next
    → All Sql pieces
    → strip (filled quoted_name piece (next ∷ pieces)) ≡ filled quoted_name piece (next ∷ pieces)
    → All IsPart parts
    → split_sql (filled quoted_name piece (next ∷ pieces) ++ b';' ∷ b'\n' ∷ render parts)
      ≡ filled quoted_name piece (next ∷ pieces) ∷ statements parts
unfolding render statements filled
quote_database-split name quoted_name piece next pieces parts e h k more trimmed rest =
    split_sql-render (statement (filled quoted_name piece (next ∷ pieces)) ∷ parts) (
      record {
        whole = filled-Sql quoted_name piece (next ∷ pieces) token h (k, more);
        trimmed = trimmed;
        first = begun.0;
        others = begun.1;
        non_empty = ap (λ n. piece ++ (n ++ filled quoted_name next pieces)) same ∙ begun.2;
      },
      rest,
    )
  where
    token : Sql quoted_name
    token = (quote_database-Sql name quoted_name e).0

    same : quoted_name ≡ b'`' ∷ (name ++ b'`' ∷ [])
    same = (quote_database-Sql name quoted_name e).1

    begun :
        (first : ℕ) × (others : Text) × (piece
            ++ (b'`' ∷ ((name ++ b'`' ∷ []) ++ filled quoted_name next pieces))
          ≡ first ∷ others)
    begun = non_empty_with piece ((name ++ b'`' ∷ []) ++ filled quoted_name next pieces) b'`'
