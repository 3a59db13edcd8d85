-- ===== src/Rows/Events/Counts.antt =====
-- How many rows a batch of events makes: `store_events` of src/cow_indexer/storage/clickhouse.py.
use cow_indexer.Prelude.{
  ℕ, arith, ◌+◌, ◌≡◌, refl, ◌∙◌, ap, sym, subst, Bool, true, false, List, [], ◌∷◌, length,
  length-append, keep, codes, text_eq, Result, ok, PyError, Bool-cases, inl, inr, if◌then◌else◌,
  bind-eq-ok, ◌>>=◌,
}
use cow_indexer.Json.{Codec}
use cow_indexer.Loader.{is_one_of}
use cow_indexer.Models.{DecodedEvent}
use cow_indexer.Rows.{Row}
use cow_indexer.Rows.Events.{
  Tables, no_rows, combine, trade_row, settlement_row, interaction_row, decoded_row,
  order_event_row, order_event_names, with_own_row, decoded_event_rows, event_batches,
}

abbrev pub is_trade : DecodedEvent → Bool
is_trade e = text_eq e.event_name (codes "Trade")

module _ {A : Type 0} (x y : A) where
  if_true : (b : Bool) → b ≡ true → (if b then x else y) ≡ x
  if_true b e = rw e refl

  if_false : (b : Bool) → b ≡ false → (if b then x else y) ≡ y
  if_false b e = rw e refl

length-keep_cons :
    (e : DecodedEvent) (es : List DecodedEvent)
    → length (keep is_trade (e ∷ es)) ≡ length (keep is_trade (e ∷ [])) + length (keep is_trade es)
length-keep_cons e es = elim (Bool-cases (is_trade e)) [
  | inl trade ↦ rw trade (omega arith)
  | inr other ↦ rw other (omega arith)
]

module _ (codec : Codec) (now : ℕ) where
  -- One row of `decoded_events` for an event, and one of `trades` for a trade.
  record IsCounted (e : DecodedEvent) (t : Tables) : Type 0 where
    decoded_once : length t.decoded_events ≡ 1
    traded_once : length t.trades ≡ length (keep is_trade (e ∷ []))

  own_else :
      (e : DecodedEvent) {t : Tables}
      → is_trade e ≡ false
      → length t.decoded_events ≡ 1
      → length t.trades ≡ 0
      → IsCounted e t
  own_else e other once none_ = record { decoded_once = once; traded_once = rw other none_ }

  same_tables :
      (e : DecodedEvent) (t t' : Tables)
      → IsCounted e t
      → ◌≡◌ {A = Result PyError Tables} (ok t) (ok t')
      → IsCounted e t'
  same_tables e t t' counted q = let same : t ≡ t' = cc q in subst (IsCounted e) same counted

  branch :
      (e : DecodedEvent) (row : Result PyError Row) (add : Row → Tables) (t' : Tables)
      → ((r : Row) → IsCounted e (add r))
      → (row >>= λ r. ok (add r)) ≡ ok t'
      → IsCounted e t'
  branch e row add t' counted returned =
      let (r, q, _) = bind-eq-ok row (λ r. ok (add r)) returned in
      same_tables e (add r) t' (counted r) q

  with_own_row-IsCounted :
      (e : DecodedEvent) (t t' : Tables)
      → length t.decoded_events ≡ 1
      → length t.trades ≡ 0
      → with_own_row codec now e t ≡ ok t'
      → IsCounted e t'
  unfolding with_own_row
  with_own_row-IsCounted e t t' once none_ returned = elim (Bool-cases (is_trade e)) [
    | inl trade ↦
        branch e (trade_row codec now e) (λ row. record t { trades = row ∷ [] }) t'
          (λ row. record { decoded_once = once; traded_once = rw trade refl })
          (sym (rw (trade, with_own_row) refl) ∙ returned)
    | inr other ↦ elim (Bool-cases (text_eq e.event_name (codes "Settlement"))) [
      | inl settled ↦
          branch e (settlement_row codec now e) (λ row. record t { settlements = row ∷ [] }) t'
            (λ row. own_else e other once none_)
            (sym (rw (other, settled, with_own_row) refl) ∙ returned)
      | inr unsettled ↦ elim (Bool-cases (text_eq e.event_name (codes "Interaction"))) [
        | inl interacted ↦
            branch e (interaction_row codec now e) (λ row. record t { interactions = row ∷ [] }) t'
              (λ row. own_else e other once none_)
              (sym (rw (other, unsettled, interacted, with_own_row) refl) ∙ returned)
        | inr silent ↦
            same_tables e t t' (own_else e other once none_)
              (sym (rw (other, unsettled, silent, with_own_row) refl) ∙ returned)
      ]
    ]
  ]

  decoded_event_rows-IsCounted :
      (e : DecodedEvent) (t : Tables) → decoded_event_rows codec now e ≡ ok t → IsCounted e t
  unfolding decoded_event_rows no_rows
  decoded_event_rows-IsCounted e t returned =
      let (own, q, first) =
        bind-eq-ok
          (with_own_row codec now e
            (record no_rows { decoded_events = decoded_row codec now e ∷ [] }))
          _ returned in
      let counted = with_own_row-IsCounted e _ own refl refl first in
      elim (Bool-cases (is_one_of e.event_name (order_event_names codec now))) [
        | inl order ↦
            branch e (order_event_row codec now e) (λ row. record own { order_events = row ∷ [] }) t
              (λ row. record {
                decoded_once = counted.decoded_once;
                traded_once = counted.traded_once;
              })
              (sym (if_true _ _ _ order) ∙ q)
        | inr other ↦ same_tables e own t counted (sym (if_false _ _ _ other) ∙ q)
      ]

  -- A batch that the store accepts makes one row of `decoded_events` for each event, and one row of
  -- `trades` for each event that is a trade and for no other.
  pub event_batches-lengths :
      (es : List DecodedEvent) (t : Tables)
      → event_batches codec now es ≡ ok t
      → (length t.decoded_events ≡ length es) × (length t.trades ≡ length (keep is_trade es))
  unfolding event_batches combine no_rows
  event_batches-lengths [] t returned =
      let same : no_rows ≡ t = cc returned in
      (sym (ap (λ t. length t.decoded_events) same), sym (ap (λ t. length t.trades) same))
  event_batches-lengths (e ∷ es) t returned =
      let (own, q, first) = bind-eq-ok (decoded_event_rows codec now e) _ returned in
      let (others, q', rest) = bind-eq-ok (event_batches codec now es) _ q in
      let same : combine own others ≡ t = cc q' in
      let counted = decoded_event_rows-IsCounted e own first in
      let ih = event_batches-lengths es others rest in
      let total = length-append own.decoded_events others.decoded_events in
      let trades = length-append own.trades others.trades in
      (
        sym (ap (λ t. length t.decoded_events) same)
            ∙ omega (arith, total, counted.decoded_once, ih.0),
        sym (ap (λ t. length t.trades) same)
            ∙ omega (arith, trades, counted.traded_once, ih.1, length-keep_cons e es),
      )
