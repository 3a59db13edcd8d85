-- ===== src/Backfill/Keys.antt =====
-- The key of a batch of order UIDs: `encode_uid_batch_key` and `decode_uid_batch_key` of
-- src/cow_indexer/services/backfill_orderbook.py.
use mathlib.Core.List.{Permᴰ}
use mathlib.Core.List.Permᴰ
use cow_indexer.Prelude.{
  ℕ, arith, ◌≡◌, ◌≤◌, ◌<◌, refl, ◌∙◌, ap, sym, Bool, true, false, not, ◌==◌, List, [], ◌∷◌, ◌++◌,
  Text, All, length, keep, every, Result, ok, err, bind-eq-ok, subst, some, leb, drop, starts_with,
  require, ◌>>◌, le→leb, suc,
}
use cow_indexer.Hex.{ValueError, normalize_order_uid, is_hex_code}
use cow_indexer.Hex.Normal.{IsNormal, normalize_hex_iff, normalize_hex-IsNormal, prefix-payload}
use cow_indexer.Backfill.{
  BatchError, empty_batch, too_many_uids, as_uid, normal_uids, non_empty, join, split, sorted,
  encode_uid_batch_key, decode_uid_batch_key, uid_batch_size,
}
use cow_indexer.Backfill.Sorting.{
  IsAscending, sorted-Permᴰ, sorted-is_Permᴰ, sorted-IsAscending, All-Permᴰ, length-Permᴰ,
}

abbrev pub IsUid : Text → Type 0
IsUid = IsNormal (some 56)

abbrev has_no_comma : Text → Bool
has_no_comma = every (λ c. not (c == b','))

hex-has_no_comma : (s : Text) → every is_hex_code s ≡ true → has_no_comma s ≡ true
unfolding is_hex_code
hex-has_no_comma [] h = refl
hex-has_no_comma (c ∷ s) h = ground (arith, hex-has_no_comma s)

IsUid-has_no_comma : (s : Text) → IsUid s → has_no_comma s ≡ true
IsUid-has_no_comma s h =
    subst (λ t. has_no_comma t ≡ true) (sym (prefix-payload s h.prefix))
      (hex-has_no_comma (drop 2 s) h.hexadecimal)

-- The texts with their normal forms.
data Normalises : List Text → List Text → Type 0 where
  nil : Normalises [] []
  cons :
      {uid n : Text} {uids ns : List Text}
      → normalize_order_uid uid ≡ ok n
      → Normalises uids ns
      → Normalises (uid ∷ uids) (n ∷ ns)

as_uid-ok : (r : Result ValueError Text) (n : Text) → as_uid r ≡ ok n → r ≡ ok n
as_uid-ok (ok a) n e = ground arith
as_uid-ok (err a) n e = cc

ok-injective :
    (ns ms : List Text) → ◌≡◌ {A = Result BatchError (List Text)} (ok ns) (ok ms) → ns ≡ ms
ok-injective ns ms e = ground arith

normal_uids-Normalises : (uids ns : List Text) → normal_uids uids ≡ ok ns → Normalises uids ns
unfolding normal_uids
normal_uids-Normalises [] ns h = subst (Normalises []) (ok-injective [] ns h) Normalises.nil
normal_uids-Normalises (uid ∷ uids) ns h =
    let (n, after, first) = bind-eq-ok (as_uid (normalize_order_uid uid)) _ h in
    let (ms, last, others) = bind-eq-ok (normal_uids uids) _ after in
    subst (Normalises (uid ∷ uids)) (ok-injective (n ∷ ms) ns last) (
      Normalises.cons (as_uid-ok (normalize_order_uid uid) n first)
        (normal_uids-Normalises uids ms others))

Normalises-normal_uids : {uids ns : List Text} → Normalises uids ns → normal_uids uids ≡ ok ns
unfolding normal_uids
Normalises-normal_uids Normalises.nil = refl
Normalises-normal_uids (Normalises.cons e h) = rw (e, Normalises-normal_uids h) refl

Normalises-IsUid : {uids ns : List Text} → Normalises uids ns → All IsUid ns
unfolding normalize_order_uid
Normalises-IsUid Normalises.nil = tt
Normalises-IsUid (Normalises.cons {uid = uid} {n = n} e h) =
    (((normalize_hex_iff uid (some 56) n).0 e).0, Normalises-IsUid h)

IsUid-Normalises : (ns : List Text) → All IsUid ns → Normalises ns ns
unfolding normalize_order_uid
IsUid-Normalises [] h = Normalises.nil
IsUid-Normalises (n ∷ ns) h =
    Normalises.cons (normalize_hex-IsNormal (some 56) n h.0) (IsUid-Normalises ns h.1)

Normalises-Permᴰ :
    {uids vids ns : List Text}
    → Permᴰ uids vids
    → Normalises uids ns
    → (ms : List Text) × Normalises vids ms × Permᴰ ns ms
Normalises-Permᴰ Permᴰ.nil Normalises.nil = ([], Normalises.nil, Permᴰ.nil)
Normalises-Permᴰ (Permᴰ.cons e p) (Normalises.cons {n = n} k h) =
    let (ms, g, q) = Normalises-Permᴰ p h in
    (n ∷ ms, Normalises.cons (ap normalize_order_uid (sym e) ∙ k) g, Permᴰ.cons refl q)
Normalises-Permᴰ (Permᴰ.swap e f) (Normalises.cons {n = n} k (Normalises.cons {n = m} l h)) = (
  m ∷ n ∷ _,
  Normalises.cons (ap normalize_order_uid (sym f) ∙ l)
      (Normalises.cons (ap normalize_order_uid (sym e) ∙ k) h),
  Permᴰ.swap refl refl,
)
Normalises-Permᴰ (Permᴰ.trans p q) h =
    let (ms, g, r) = Normalises-Permᴰ p h in
    let (ls, k, t) = Normalises-Permᴰ q g in (ls, k, Permᴰ.trans r t)

no_comma_head : (c : ℕ) (s : Text) → has_no_comma (c ∷ s) ≡ true → (c == b',') ≡ false
no_comma_head c s h = ground arith

no_comma_tail : (c : ℕ) (s : Text) → has_no_comma (c ∷ s) ≡ true → has_no_comma s ≡ true
no_comma_tail c s h = ground arith

split-last : (s : Text) → has_no_comma s ≡ true → split s ≡ s ∷ []
unfolding split
split-last [] h = refl
split-last (c ∷ s) h = rw (no_comma_head c s h, split-last s (no_comma_tail c s h)) refl

split-first : (s rest : Text) → has_no_comma s ≡ true → split (s ++ b',' ∷ rest) ≡ s ∷ split rest
unfolding split
split-first [] rest h = refl
split-first (c ∷ s) rest h = rw (no_comma_head c s h, split-first s rest (no_comma_tail c s h)) refl

split-join : (n : Text) (ns : List Text) → All IsUid (n ∷ ns) → split (join (n ∷ ns)) ≡ n ∷ ns
unfolding join
split-join n [] h = split-last n (IsUid-has_no_comma n h.0)
split-join n (m ∷ ns) h =
    split-first n (join (m ∷ ns)) (IsUid-has_no_comma n h.0) ∙ ap (◌∷◌ n) (split-join m ns h.1)

-- A normal form is not empty.
keep-IsUid : (ns : List Text) → All IsUid ns → keep non_empty ns ≡ ns
unfolding starts_with
keep-IsUid [] h = refl
keep-IsUid ([] ∷ ns) h = absurd (cc h.0.prefix)
keep-IsUid ((c ∷ s) ∷ ns) h = ap (◌∷◌ (c ∷ s)) (keep-IsUid ns h.1)

decode-join :
    (n : Text) (ns : List Text)
    → All IsUid (n ∷ ns)
    → decode_uid_batch_key (join (n ∷ ns)) ≡ ok (n ∷ ns)
unfolding decode_uid_batch_key
decode-join n ns h =
    ap (λ ts. normal_uids (keep non_empty ts)) (split-join n ns h)
    ∙ ap normal_uids (keep-IsUid (n ∷ ns) h)
    ∙ Normalises-normal_uids (IsUid-Normalises (n ∷ ns) h)

-- What a key that was given says of its texts.
record IsKey (uids : List Text) (key : Text) : Type 0 where
  normals : List Text
  normalises : Normalises uids normals
  first : Text
  others : List Text
  batch : sorted normals ≡ first ∷ others
  bounded : length (first ∷ others) ≤ uid_batch_size
  joined : join (first ∷ others) ≡ key

of_batch :
    (batch : List Text) (key : Text)
    → (do
      require (non_empty batch) empty_batch
      require (leb (length batch) uid_batch_size) too_many_uids
      ok (join batch))
      ≡ ok key
    → (first : Text) × (others : List Text) × (batch ≡ first ∷ others)
      × (length (first ∷ others) ≤ uid_batch_size)
      × (join (first ∷ others) ≡ key)
of_batch [] key e = cc
of_batch (n ∷ ns) key e = (n, ns, refl, ground arith, ground arith)

encode-IsKey : (uids : List Text) (key : Text) → encode_uid_batch_key uids ≡ ok key → IsKey uids key
unfolding encode_uid_batch_key
encode-IsKey uids key e =
    let (ns, after, normal) = bind-eq-ok (normal_uids uids) _ e in
    let (first, others, batch, bounded, joined) = of_batch (sorted ns) key after in
    record {
      normals = ns;
      normalises = normal_uids-Normalises uids ns normal;
      first = first;
      others = others;
      batch = batch;
      bounded = bounded;
      joined = joined;
    }

IsKey-encode : (uids : List Text) (key : Text) → IsKey uids key → encode_uid_batch_key uids ≡ ok key
unfolding encode_uid_batch_key
IsKey-encode uids key k =
    rw (Normalises-normal_uids k.normalises)
      (rw k.batch (rw (le→leb _ _ k.bounded) (ap ok k.joined)))

-- What reading a key gives: all the normal forms of the order UIDs it was made of, ascending, and
-- not more than one request may ask for.
pub record IsBatchOf (uids batch : List Text) : Type 0 where
  pub normals : List Text
  pub normal : normal_uids uids ≡ ok normals
  pub same : Permᴰ batch normals
  pub ascending : IsAscending batch
  pub some_uids : 0 < length batch
  pub bounded : length batch ≤ 128

-- A key that `encode_uid_batch_key` gives for some order UIDs is read by `decode_uid_batch_key`
-- without an error, as a batch of between 1 and 128 order UIDs: the normal forms of those that the key
-- was made of, in ascending order, each as often as it was given.
pub decode-encode :
    (uids : List Text) (key : Text)
    → encode_uid_batch_key uids ≡ ok key
    → (batch : List Text) × (decode_uid_batch_key key ≡ ok batch) × IsBatchOf uids batch
decode-encode uids key e =
    let k = encode-IsKey uids key e in
    let permuted : Permᴰ (k.first ∷ k.others) k.normals =
      subst (λ b. Permᴰ b k.normals) k.batch (sorted-is_Permᴰ k.normals) in
    let all_uids =
      All-Permᴰ IsUid k.normals (k.first ∷ k.others) (Permᴰ.symm permuted)
        (Normalises-IsUid k.normalises) in
    (
      k.first ∷ k.others,
      ap decode_uid_batch_key (sym k.joined) ∙ decode-join k.first k.others all_uids,
      record {
        normals = k.normals;
        normal = Normalises-normal_uids k.normalises;
        same = permuted;
        ascending = subst IsAscending k.batch (sorted-IsAscending k.normals);
        some_uids = omega arith;
        bounded = k.bounded;
      },
    )

-- The key of a batch does not depend on the order in which its order UIDs are given.
pub encode-Permᴰ :
    (uids vids : List Text) (key : Text)
    → Permᴰ uids vids
    → encode_uid_batch_key uids ≡ ok key
    → encode_uid_batch_key vids ≡ ok key
encode-Permᴰ uids vids key p e =
    let k = encode-IsKey uids key e in
    let (ms, normalises, q) = Normalises-Permᴰ p k.normalises in
    IsKey-encode vids key (record {
      normals = ms;
      normalises = normalises;
      first = k.first;
      others = k.others;
      batch = sym (sorted-Permᴰ k.normals ms q) ∙ k.batch;
      bounded = k.bounded;
      joined = k.joined;
    })

-- Between 1 and 128 order UIDs have a key.
pub encode-returns :
    (uids : List Text)
    → All (λ uid. (n : Text) × (normalize_order_uid uid ≡ ok n)) uids
    → 0 < length uids
    → length uids ≤ uid_batch_size
    → (key : Text) × (encode_uid_batch_key uids ≡ ok key)
encode-returns uids h pos fits =
    let (ns, normalises, same) = written uids h in
    with_batch ns normalises (sorted ns) refl
      (omega (arith, length-Permᴰ (sorted ns) ns (sorted-is_Permᴰ ns), same, pos))
      (omega (arith, length-Permᴰ (sorted ns) ns (sorted-is_Permᴰ ns), same, fits))
  where
    written :
        (uids : List Text)
        → All (λ uid. (n : Text) × (normalize_order_uid uid ≡ ok n)) uids
        → (ns : List Text) × Normalises uids ns × (length ns ≡ length uids)
    written [] h = ([], Normalises.nil, refl)
    written (uid ∷ uids) h =
        let (ns, k, e) = written uids h.1 in (h.0.0 ∷ ns, Normalises.cons h.0.1 k, ap suc e)

    with_batch :
        (ns : List Text)
        → Normalises uids ns
        → (batch : List Text) → sorted ns ≡ batch
        → 0 < length batch
        → length batch ≤ uid_batch_size
        → (key : Text) × (encode_uid_batch_key uids ≡ ok key)
    with_batch ns k [] e pos fits = absurd (omega arith)
    with_batch ns k (first ∷ others) e pos fits = (
      join (first ∷ others),
      IsKey-encode uids (join (first ∷ others)) (record {
        normals = ns;
        normalises = k;
        first = first;
        others = others;
        batch = e;
        bounded = fits;
        joined = refl;
      }),
    )
