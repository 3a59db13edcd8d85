-- ===== src/Exports/Normalise/Conflicts.antt =====
-- Which orders of an export are accepted: `normalize_export_rows` of
-- src/cow_indexer/sources/exports/adapters.py, for the dataset of orders.
use cow_indexer.Prelude.{
  ℕ, ◌≡◌, ◌≢◌, refl, subst, ◌∷◌, [], Bool, List, Option, PyError, Result, Text, err, false, none,
  ok, some, text_eq, text_eq_iff, true, All, All-append, In, inl, inr, codes, bind-eq-ok, arith,
}
use cow_indexer.Json.{Codec, Fields, Json}
use cow_indexer.WorkQueue.{Chain}
use cow_indexer.Rows.{Row}
use cow_indexer.Exports.{orders, named, RowOutcome, accepted, duplicate, conflict, Order, order}
use cow_indexer.Exports.Normalise.{
  Imported, nothing, with_outcome, is_rejection, caught, with_row, compared, known_or_not,
  conflict_row, order_outcome, outcome_of_row, each_row, normalize_export_rows,
}

module _ (codec : Codec) (parse : Text → Option ℕ) (shown : Json → Text) (chain : Chain)
    (snapshot_at now : ℕ) (bundle_id : Text) (existing : Text → Option Text)
    (source : List Fields) where
  abbrev read : Fields → Result PyError Order
  read = order codec parse shown chain snapshot_at now

  -- A row for the table is that of an order of the input which the store did not have.
  pub record IsNew (r : Row) : Type 0 where
    pub row : Fields
    pub given : In row source
    pub read_order : Order
    pub is_read : read row ≡ ok read_order
    pub unknown : existing read_order.uid ≡ none
    pub same : r ≡ read_order.row

  -- A conflict is about an order of the input which the store had with another hash.
  pub record IsConflict (r : Row) : Type 0 where
    pub row : Fields
    pub given : In row source
    pub read_order : Order
    pub is_read : read row ≡ ok read_order
    pub stored_hash : Text
    pub known : existing read_order.uid ≡ some stored_hash
    pub differs : stored_hash ≢ read_order.immutable_hash
    pub same :
        r
        ≡ conflict_row codec parse shown chain snapshot_at now bundle_id existing read_order
            stored_hash row

  abbrev pub IsSeparated : Imported → Type 0
  IsSeparated i = All IsNew i.output × All IsConflict i.conflicts

  IsSettled : RowOutcome → Type 0
  IsSettled (accepted r) = IsNew r
  IsSettled duplicate = Unit
  IsSettled (conflict r) = IsConflict r

  order_outcome-IsSettled :
      (row : Fields) (o : Order) (hash : Option Text)
      → In row source
      → read row ≡ ok o
      → existing o.uid ≡ hash
      → IsSettled (compared codec parse shown chain snapshot_at now bundle_id existing o row hash)
  unfolding IsSettled
  order_outcome-IsSettled row o none given is_read unknown = record {
    row = row;
    given = given;
    read_order = o;
    is_read = is_read;
    unknown = unknown;
    same = refl;
  }
  order_outcome-IsSettled row o (some hash) given is_read known =
      by_test (text_eq hash o.immutable_hash) refl
    where
      by_test :
          (t : Bool)
          → text_eq hash o.immutable_hash ≡ t
          → IsSettled
              (known_or_not codec parse shown chain snapshot_at now bundle_id existing o row hash t)
      by_test true e = tt
      by_test false e = record {
        row = row;
        given = given;
        read_order = o;
        is_read = is_read;
        stored_hash = hash;
        known = known;
        differs = λ q. cc ((text_eq_iff hash o.immutable_hash).1 q, e);
        same = refl;
      }

  with_outcome-IsSeparated :
      (o : RowOutcome) (i : Imported) → IsSettled o → IsSeparated i → IsSeparated (with_outcome o i)
  unfolding IsSettled
  with_outcome-IsSeparated (accepted r) i h k =
      (All-append IsNew i.output (r ∷ []) k.0 (h, tt), k.1)
  with_outcome-IsSeparated duplicate i h k = k
  with_outcome-IsSeparated (conflict r) i h k =
      (k.0, All-append IsConflict i.conflicts (r ∷ []) k.1 (h, tt))

  ok_injective : (a b : Imported) → ◌≡◌ {A = Result PyError Imported} (ok a) (ok b) → a ≡ b
  ok_injective a b e = ground arith

  with_row-IsSeparated :
      (row : Fields) (r : Result PyError Order) (i more : Imported)
      → In row source
      → read row ≡ r
      → IsSeparated i
      → with_row codec parse shown chain snapshot_at now bundle_id existing
          (order_outcome codec parse shown chain snapshot_at now bundle_id existing row r)
          i
        ≡ ok more
      → IsSeparated more
  with_row-IsSeparated row (ok o) i more given is_read k e =
      subst IsSeparated (ok_injective _ more e) (
        with_outcome-IsSeparated
          (compared codec parse shown chain snapshot_at now bundle_id existing o row
            (existing o.uid))
          i (order_outcome-IsSettled row o (existing o.uid) given is_read refl) k)
  with_row-IsSeparated row (err error) i more given is_read k e = by_kind (is_rejection error) e
    where
      by_kind :
          (t : Bool)
          → caught codec parse shown chain snapshot_at now bundle_id existing error t i ≡ ok more
          → IsSeparated more
      by_kind true q = subst IsSeparated (ok_injective _ more q) k
      by_kind false q = cc

  each_row-IsSeparated :
      (rows : List Fields) (i final : Imported)
      → ((row : Fields) → In row rows → In row source)
      → IsSeparated i
      → each_row codec parse shown chain snapshot_at now bundle_id existing orders rows i ≡ ok final
      → IsSeparated final
  unfolding each_row outcome_of_row
  each_row-IsSeparated [] i final given k e = subst IsSeparated (ok_injective i final e) k
  each_row-IsSeparated (row ∷ rows) i final given k e =
      let (more, after, first) =
        bind-eq-ok
          (with_row codec parse shown chain snapshot_at now bundle_id existing
            (order_outcome codec parse shown chain snapshot_at now bundle_id existing row
              (read row))
            i)
          _ e in
      each_row-IsSeparated rows more final (λ other m. given other (inr m))
        (with_row-IsSeparated row (read row) i more (given row (inl refl)) refl k first) after

-- An import of orders never replaces a stored order: each row that it inserts is that of an order of
-- the input which the store did not have, and each conflict is about an order of the input which the
-- store had with another immutable hash, and names both.
pub normalize_export_rows-IsSeparated :
    (codec : Codec) (parse : Text → Option ℕ) (shown : Json → Text) (chain : Chain)
    (snapshot_at now : ℕ) (bundle_id : Text) (existing : Text → Option Text) (rows : List Fields)
    (final : Imported)
    → normalize_export_rows codec parse shown chain snapshot_at now bundle_id existing
        (codes "orders")
        rows
      ≡ ok final
    → IsSeparated codec parse shown chain snapshot_at now bundle_id existing rows final
unfolding normalize_export_rows named text_eq
normalize_export_rows-IsSeparated codec parse shown chain snapshot_at now bundle_id existing rows
      final e =
    each_row-IsSeparated codec parse shown chain snapshot_at now bundle_id existing rows rows
      nothing final (λ row m. m) (tt, tt) e
