-- ===== src/Hex/OrderUid.antt =====
-- The layout of an order UID, `validate_order_uid` of src/cow_indexer/utils.py against
-- `decode_valid_to` of src/cow_indexer/services/backfill_orderbook.py.
use cow_indexer.Prelude.{
  ℕ, zero, suc, ◌+◌, ◌*◌, ◌<◌, ◌≡◌, refl, sym, ap, ◌↔◌, ◌∙◌, Bool, true, some, List, [], ◌∷◌, arith,
  ◌==◌, ==_iff, inl, inr, length, take, drop, every, Text, text_eq, text_eq_iff, ok, ◌>>◌, require,
  Result-cases, bind-eq-ok, every-drop, every-take,
}
use cow_indexer.Hex.{
  owner_mismatch, valid_to_mismatch, is_hex_code, normalize_address, normalize_order_uid, digit,
  from_hex, from_bytes, from_hex_digits, slice, validate_order_uid, decode_valid_to, length_fits,
}
use cow_indexer.Hex.Normal.{IsNormal, normalize_hex_iff, prefix-payload}

abbrev double : ℕ → ℕ
double zero = zero
double (suc n) = suc (suc (double n))

module _ where
  from_hex-double :
      (k : ℕ) (s : Text) → length s ≡ double k → (raw : List ℕ) × (from_hex s ≡ ok raw)
  unfolding from_hex
  from_hex-double zero [] h = ([], refl)
  from_hex-double zero (a ∷ s) h = absurd (omega arith)
  from_hex-double (suc k) [] h = absurd (omega arith)
  from_hex-double (suc k) (a ∷ []) h = absurd (omega arith)
  from_hex-double (suc k) (a ∷ b ∷ s) h =
      let (raw, e) = from_hex-double k s (omega arith) in ((digit a * 16 + digit b) ∷ raw, rw e)

  from_hex-drop :
      (k : ℕ) (s : Text) (raw : List ℕ)
      → from_hex s ≡ ok raw
      → from_hex (drop (double k) s) ≡ ok (drop k raw)
  unfolding from_hex
  from_hex-drop zero s raw h = h
  from_hex-drop (suc k) [] raw h = ground arith
  from_hex-drop (suc k) (a ∷ []) raw h = cc
  from_hex-drop (suc k) (a ∷ b ∷ s) raw h = elim (Result-cases (from_hex s)) [
    | inl (rest, e) ↦ let h' = (rw e at h) in ground (arith, from_hex-drop k s rest e)
    | inr (x, e) ↦ ground arith
  ]

  from_hex-take :
      (k : ℕ) (s : Text) (raw : List ℕ)
      → from_hex s ≡ ok raw
      → from_hex (take (double k) s) ≡ ok (take k raw)
  unfolding from_hex
  from_hex-take zero s raw h = refl
  from_hex-take (suc k) [] raw h = ground arith
  from_hex-take (suc k) (a ∷ []) raw h = cc
  from_hex-take (suc k) (a ∷ b ∷ s) raw h = elim (Result-cases (from_hex s)) [
    | inl (rest, e) ↦ ground (arith, from_hex-take k s rest e)
    | inr (x, e) ↦ ground arith
  ]

  -- The bytes and the digits are the same number.
  from_bytes-from_hex :
      (acc : ℕ) (s : Text) (raw : List ℕ)
      → from_hex s ≡ ok raw
      → from_bytes acc raw ≡ from_hex_digits acc s
  unfolding from_hex from_bytes from_hex_digits
  from_bytes-from_hex acc [] raw h = ground arith
  from_bytes-from_hex acc (a ∷ []) raw h = cc
  from_bytes-from_hex acc (a ∷ b ∷ s) raw h = elim (Result-cases (from_hex s)) [
    | inl (rest, e) ↦
        ground (arith, from_bytes-from_hex ((acc * 16 + digit a) * 16 + digit b) s rest e, shift)
    | inr (x, e) ↦ ground arith
  ]
    where
      shift : acc * 256 + (digit a * 16 + digit b) ≡ (acc * 16 + digit a) * 16 + digit b
      shift = omega arith

  digit_injective :
      (a b : ℕ) → is_hex_code a ≡ true → is_hex_code b ≡ true → digit a ≡ digit b → a ≡ b
  unfolding is_hex_code digit
  digit_injective a b h k e = ground arith

  digit-lt : (a : ℕ) → is_hex_code a ≡ true → digit a < 16
  unfolding is_hex_code digit
  digit-lt a h = ground arith

  byte_injective :
      (a b c d : ℕ)
      → (is_hex_code a ≡ true) × (is_hex_code b ≡ true)
      → (is_hex_code c ≡ true) × (is_hex_code d ≡ true)
      → digit a * 16 + digit c ≡ digit b * 16 + digit d
      → (a ≡ b) × (c ≡ d)
  byte_injective a b c d (ha, hb) (hc, hd) e = (
    digit_injective a b ha hb (omega (arith, digit-lt c hc, digit-lt d hd)),
    digit_injective c d hc hd (omega (arith, digit-lt c hc, digit-lt d hd)),
  )

  from_hex-cons :
      (a c : ℕ) (s : Text) {raw : List ℕ}
      → from_hex (a ∷ c ∷ s) ≡ ok raw
      → (rest : List ℕ) × (from_hex s ≡ ok rest) × (raw ≡ (digit a * 16 + digit c) ∷ rest)
  unfolding from_hex
  from_hex-cons a c s h = let (rest, k, e) = bind-eq-ok (from_hex s) _ h in (rest, e, cc)

  every-cons :
      (a c : ℕ) (s : Text)
      → every is_hex_code (a ∷ c ∷ s) ≡ true
      → (is_hex_code a ≡ true) × (is_hex_code c ≡ true) × (every is_hex_code s ≡ true)
  every-cons a c s h = ground arith

  from_hex_injective :
      (s t : Text) (raw : List ℕ)
      → every is_hex_code s ≡ true
      → every is_hex_code t ≡ true
      → from_hex s ≡ ok raw
      → from_hex t ≡ ok raw
      → s ≡ t
  unfolding from_hex
  from_hex_injective [] [] raw hs ht es et = refl
  from_hex_injective [] (b ∷ []) raw hs ht es et = cc
  from_hex_injective [] (b ∷ d ∷ t) raw hs ht es et =
      let (rest, e, r) = from_hex-cons b d t et in cc
  from_hex_injective (a ∷ []) t raw hs ht es et = cc
  from_hex_injective (a ∷ c ∷ s) [] raw hs ht es et =
      let (rest, e, r) = from_hex-cons a c s es in cc
  from_hex_injective (a ∷ c ∷ s) (b ∷ []) raw hs ht es et = cc
  from_hex_injective (a ∷ c ∷ s) (b ∷ d ∷ t) raw hs ht es et =
      let (rest, e, r) = from_hex-cons a c s es in
      let (rest', e', r') = from_hex-cons b d t et in
      let (ha, hc, hs') = every-cons a c s hs in
      let (hb, hd, ht') = every-cons b d t ht in
      let same : (digit a * 16 + digit c) ∷ rest ≡ (digit b * 16 + digit d) ∷ rest' = cc in
      let (p, q) = byte_injective a b c d (ha, hb) (hc, hd) (cc same) in
      let tails = from_hex_injective s t rest hs' ht' e (e' ∙ ap ok (cc same)) in cc (p, q, tails)

module _ (p : Text) (raw : List ℕ) (es : from_hex p ≡ ok raw) where
  owner_bytes : from_hex (take 40 (drop 64 p)) ≡ ok (slice 32 52 raw)
  unfolding slice
  owner_bytes = from_hex-take 20 (drop 64 p) (drop 32 raw) (from_hex-drop 32 p raw es)

  valid_to_bytes : from_bytes 0 (slice 52 56 raw) ≡ from_hex_digits 0 (take 8 (drop 104 p))
  unfolding slice
  valid_to_bytes =
      from_bytes-from_hex 0 (take 8 (drop 104 p)) (slice 52 56 raw)
        (from_hex-take 4 (drop 104 p) (drop 52 raw) (from_hex-drop 52 p raw es))

  owner_match :
      (o : Text) (bytes : List ℕ)
      → every is_hex_code p ≡ true
      → every is_hex_code o ≡ true
      → from_hex o ≡ ok bytes
      → (text_eq (slice 32 52 raw) bytes ≡ true) ↔ (take 40 (drop 64 p) ≡ o)
  owner_match o bytes hp ho eo = (forth, back)
    where
      forth : text_eq (slice 32 52 raw) bytes ≡ true → take 40 (drop 64 p) ≡ o
      forth h =
          from_hex_injective (take 40 (drop 64 p)) o bytes
            (every-take is_hex_code 40 (drop 64 p) (every-drop is_hex_code 64 p hp)) ho
            (owner_bytes ∙ ap ok ((text_eq_iff _ _).0 h)) eo

      back : take 40 (drop 64 p) ≡ o → text_eq (slice 32 52 raw) bytes ≡ true
      back h = (text_eq_iff _ _).1 (cc (owner_bytes, eo, ap from_hex h))

double-mul : (n : ℕ) → double n ≡ n * 2
double-mul zero = refl
double-mul (suc n) = omega (arith, double-mul n)

-- The bytes of a normal text's payload.
payload_bytes :
    (n : ℕ) (s : Text) → IsNormal (some n) s → (raw : List ℕ) × (from_hex (drop 2 s) ≡ ok raw)
unfolding length_fits
payload_bytes n s h = from_hex-double n (drop 2 s) ((==_iff _ _).0 h.fits ∙ sym (double-mul n))

pub address-IsNormal : (value o : Text) → normalize_address value ≡ ok o → IsNormal (some 20) o
unfolding normalize_address
address-IsNormal value o h = ((normalize_hex_iff value (some 20) o).0 h).0

pub order_uid-IsNormal :
    (value uid : Text) → normalize_order_uid value ≡ ok uid → IsNormal (some 56) uid
unfolding normalize_order_uid
order_uid-IsNormal value uid h = ((normalize_hex_iff value (some 56) uid).0 h).0

uid_slices :
    (uid : Text)
    → IsNormal (some 56) uid
    → (slice 66 106 uid ≡ take 40 (drop 64 (drop 2 uid)))
      × (slice 106 114 uid ≡ take 8 (drop 104 (drop 2 uid)))
unfolding slice
uid_slices uid h =
    let e = prefix-payload uid h.prefix in
    (ap (λ t. take 40 (drop 66 t)) e, ap (λ t. take 8 (drop 106 t)) e)

both_required :
    {E : Type 0} (a b : Bool) (e e' : E) (s : Text)
    → ((require a e >> require b e' >> ok s) ≡ ok s) ↔ ((a ≡ true) × (b ≡ true))
both_required a b e e' s = ground arith

module _ (owner o uid : Text) (valid_to : ℕ) (value : Text) (raw bytes : List ℕ)
    (hu : normalize_order_uid value ≡ ok uid) (es : from_hex (drop 2 uid) ≡ ok raw)
    (ho : normalize_address owner ≡ ok o) (eo : from_hex (drop 2 o) ≡ ok bytes) where
  -- With its parts computed, the validation is its two tests.
  validate_order_uid_tests : validate_order_uid value (some owner) (some valid_to) ≡ (
      require (text_eq (slice 32 52 raw) bytes) owner_mismatch
      >> require (from_bytes 0 (slice 52 56 raw) == valid_to) valid_to_mismatch
      >> ok uid)
  unfolding validate_order_uid
  validate_order_uid_tests = rw (hu, es, ho, eo) (ground arith)

module _ (owner o uid : Text) (valid_to : ℕ) (value : Text) where
  -- An order UID passes `validate_order_uid` for an owner and a validTo exactly when its bytes 32 to
  -- 51 are the owner's and `decode_valid_to` reads that validTo off its last four bytes.
  pub validate_order_uid_iff :
      normalize_order_uid value ≡ ok uid
      → normalize_address owner ≡ ok o
      → (validate_order_uid value (some owner) (some valid_to) ≡ ok uid)
        ↔ ((slice 66 106 uid ≡ drop 2 o) × (decode_valid_to value ≡ ok valid_to))
  validate_order_uid_iff hu ho = (forth, back)
    where
      nu : IsNormal (some 56) uid
      nu = order_uid-IsNormal value uid hu

      no' : IsNormal (some 20) o
      no' = address-IsNormal owner o ho

      raw : List ℕ
      raw = (payload_bytes 56 uid nu).0

      es : from_hex (drop 2 uid) ≡ ok raw
      es = (payload_bytes 56 uid nu).1

      bytes : List ℕ
      bytes = (payload_bytes 20 o no').0

      eo : from_hex (drop 2 o) ≡ ok bytes
      eo = (payload_bytes 20 o no').1

      owners :
          (text_eq (slice 32 52 raw) bytes ≡ true) ↔ (take 40 (drop 64 (drop 2 uid)) ≡ drop 2 o)
      owners = owner_match (drop 2 uid) raw es (drop 2 o) bytes nu.hexadecimal no'.hexadecimal eo

      read : from_bytes 0 (slice 52 56 raw) ≡ from_hex_digits 0 (slice 106 114 uid)
      read = valid_to_bytes (drop 2 uid) raw es ∙ ap (from_hex_digits 0) (sym (uid_slices uid nu).1)

      tests : validate_order_uid value (some owner) (some valid_to) ≡ (
          require (text_eq (slice 32 52 raw) bytes) owner_mismatch
          >> require (from_bytes 0 (slice 52 56 raw) == valid_to) valid_to_mismatch
          >> ok uid)
      tests = validate_order_uid_tests owner o uid valid_to value raw bytes hu es ho eo

      forth :
          validate_order_uid value (some owner) (some valid_to) ≡ ok uid
          → (slice 66 106 uid ≡ drop 2 o) × (decode_valid_to value ≡ ok valid_to)
      forth h =
          let (same_owner, same_valid_to) =
            (both_required _ _ owner_mismatch valid_to_mismatch uid).0 (sym tests ∙ h) in
          (
            (uid_slices uid nu).0 ∙ owners.0 same_owner,
            unfold decode_valid_to in rw hu (ap ok (sym read ∙ (==_iff _ _).0 same_valid_to)),
          )

      decoded :
          decode_valid_to value ≡ ok valid_to → from_hex_digits 0 (slice 106 114 uid) ≡ valid_to
      decoded h = unfold decode_valid_to in cc (rw hu at h)

      back :
          (slice 66 106 uid ≡ drop 2 o) × (decode_valid_to value ≡ ok valid_to)
          → validate_order_uid value (some owner) (some valid_to) ≡ ok uid
      back (same_owner, same_valid_to) =
          tests
          ∙ (both_required _ _ owner_mismatch valid_to_mismatch uid).1 (
            owners.1 (sym (uid_slices uid nu).0 ∙ same_owner),
            (==_iff _ _).1 (read ∙ decoded same_valid_to),
          )
