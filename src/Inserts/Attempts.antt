-- ===== src/Inserts/Attempts.antt =====
-- How an insert ends: `_insert` of src/cow_indexer/storage/clickhouse.py.
use cow_indexer.Prelude.{
  ℕ, zero, suc, arith, ◌≡◌, ◌≢◌, ◌<◌, ◌+◌, refl, ◌∙◌, ap, sym, subst, ◌∷◌, ◌++◌, [], ◌||◌, not,
  Bool, List, Option, Result, Text, err, false, none, ok, some, true, inl, inr, ◌⊎◌,
}
use cow_indexer.Json.{Json}
use cow_indexer.Rows.{Row}
use cow_indexer.Inserts.{
  Insert, Inserted, InsertFailure, database_error, is_burned_insert_body, is_sync, data_of, Writing,
  raise_or, is_last, answered, attempts, columns_of, send_values, insert_into,
}

module _ (answer : ℕ → Option Text) where
  -- So many calls from a number on lost their body, and nothing else went wrong.
  pub data Burned : ℕ → ℕ → Type 0 where
    nil : {call : ℕ} → Burned call 0
    cons :
        {call n : ℕ} (message : Text)
        → answer call ≡ some message
        → is_burned_insert_body message ≡ true
        → Burned (call + 1) n
        → Burned call (suc n)

  -- How an insert ended, of at most so many attempts: the database took it in a call after calls
  -- that lost their body, or the last call of these raised, for another reason or as the last allowed.
  pub data Ended (limit : ℕ) (insert : Insert) (w : Inserted)
      : Result InsertFailure (Unit {0}) × Inserted → Type 0 where
    taken :
        (before : ℕ)
        → before < limit
        → Burned w.calls before
        → answer (w.calls + before) ≡ none
        → Ended limit insert w
            (ok tt, record { calls = w.calls + before + 1; inserts = w.inserts ++ insert ∷ [] })
    raised :
        (before : ℕ) (message : Text)
        → before < limit
        → Burned w.calls before
        → answer (w.calls + before) ≡ some message
        → (before + 1 ≡ limit) ⊎ (is_burned_insert_body message ≡ false)
        → Ended limit insert w
            (err (database_error message), record w { calls = w.calls + before + 1 })

  module _ (insert : Insert) where
    later :
        (limit : ℕ) (w : Inserted) (message : Text) (r : Result InsertFailure (Unit {0}) × Inserted)
        → answer w.calls ≡ some message
        → is_burned_insert_body message ≡ true
        → Ended limit insert (record w { calls = w.calls + 1 }) r
        → Ended (suc limit) insert w r
    later limit w message r a b (taken before less burned none_wrong) =
        let call : w.calls + 1 + before ≡ w.calls + suc before = omega arith in
        subst
          (λ c.
            Ended (suc limit) insert w
              (ok tt, record { calls = c + 1; inserts = w.inserts ++ insert ∷ [] }))
          (sym call)
          (taken (suc before) (omega (arith, less)) (Burned.cons message a b burned)
            (ap answer (sym call) ∙ none_wrong))
    later limit w message r a b (raised before last less burned wrong why) =
        let call : w.calls + 1 + before ≡ w.calls + suc before = omega arith in
        subst
          (λ c. Ended (suc limit) insert w (err (database_error last), record w { calls = c + 1 }))
          (sym call)
          (raised (suc before) last (omega (arith, less)) (Burned.cons message a b burned)
            (ap answer (sym call) ∙ wrong) (one_more why))
      where
        one_more :
            (before + 1 ≡ limit) ⊎ (is_burned_insert_body last ≡ false)
            → (suc before + 1 ≡ suc limit) ⊎ (is_burned_insert_body last ≡ false)
        one_more (inl e) = inl (omega (arith, e))
        one_more (inr e) = inr e

    -- The first call, where it raises.
    raised_now :
        (left : ℕ) (w : Inserted) (message : Text)
        → answer w.calls ≡ some message
        → (left ≡ 0) ⊎ (is_burned_insert_body message ≡ false)
        → Ended (suc left) insert w (err (database_error message), record w { calls = w.calls + 1 })
    raised_now left w message e why =
        let call : w.calls + 0 ≡ w.calls = omega arith in
        subst
          (λ c.
            Ended (suc left) insert w (err (database_error message), record w { calls = c + 1 }))
          call (raised 0 message (omega arith) Burned.nil (ap answer call ∙ e) (only why))
      where
        only :
            (left ≡ 0) ⊎ (is_burned_insert_body message ≡ false)
            → (0 + 1 ≡ suc left) ⊎ (is_burned_insert_body message ≡ false)
        only (inl z) = inl (omega (arith, z))
        only (inr f) = inr f

    answered-Ended :
        (left : ℕ) (again : Writing answer) (w : Inserted) (a : Option Text)
        → answer w.calls ≡ a
        → (left ≢ 0
            → Ended left insert
                (record w { calls = w.calls + 1 })
                (again (record w { calls = w.calls + 1 })))
        → Ended (suc left) insert w (answered answer insert left again a w)
    answered-Ended left again w none e more =
        let call : w.calls + 0 ≡ w.calls = omega arith in
        subst
          (λ c.
            Ended (suc left) insert w
              (ok tt, record { calls = c + 1; inserts = w.inserts ++ insert ∷ [] }))
          call (taken 0 (omega arith) Burned.nil (ap answer call ∙ e))
    answered-Ended left again w (some message) e more =
        by_test left refl (is_burned_insert_body message) refl
      where
        by_test :
            (n : ℕ)
            → left ≡ n
            → (burned : Bool) → is_burned_insert_body message ≡ burned
            → Ended (suc left) insert w (
                raise_or answer message again
                  (is_last answer n || not burned)
                  (record w { calls = w.calls + 1 }))
        by_test zero z burned b = raised_now left w message e (inl z)
        by_test (suc n) z true b = later left w message _ e b (more (λ q. cc (z, q)))
        by_test (suc n) z false b = raised_now left w message e (inr b)

    attempts-Ended : (n : ℕ) (w : Inserted) → n ≢ 0 → Ended n insert w (attempts answer n insert w)
    unfolding attempts
    attempts-Ended zero w h = absurd (h refl)
    attempts-Ended (suc n) w h =
        answered-Ended n (attempts answer n insert) w (answer w.calls) refl
          (λ k. attempts-Ended n (record w { calls = w.calls + 1 }) k)

  -- An insert of rows that all have the columns of the first one ends in at most three calls of the
  -- client: either the database takes it, once, in a call after calls that only lost their body, or it
  -- is not taken at all and the error of the last call is raised, which is the third one or an error for
  -- another reason. The insert waits for durable data exactly where it is asked to or the table or the
  -- setting says so.
  pub insert_into-Ended :
      (async_insert_wait : Bool) (table : Text) (durable : Option Bool) (row : Row)
      (rows : List Row) (values : List (List Json)) (w : Inserted)
      → data_of (columns_of row) (row ∷ rows) ≡ ok values
      → Ended 3
          (record {
            table = table;
            columns = columns_of row;
            values = values;
            waits = is_sync durable table || async_insert_wait;
          })
          w
          (insert_into answer async_insert_wait table durable (row ∷ rows) w)
  unfolding insert_into
  insert_into-Ended async_insert_wait table durable row rows values w e =
      let insert : Insert = record {
        table = table;
        columns = columns_of row;
        values = values;
        waits = is_sync durable table || async_insert_wait;
      } in
      subst
        (λ r. Ended 3 insert w (
          send_values answer table (columns_of row) (is_sync durable table || async_insert_wait) r
            w))
        (sym e) (attempts-Ended insert 3 w (λ q. omega (arith, q)))
