-- ===== src/Hex/Spelling.antt =====
-- Which texts `normalize_hex` of src/cow_indexer/utils.py takes, and what it makes of them, said of the
-- characters alone.
use cow_indexer.Prelude.{
  ℕ, arith, ◌+◌, ◌-◌, ◌≤◌, ◌<◌, ◌≡◌, refl, sym, ap, ◌∙◌, ◌⊎◌, inl, inr, ◌↔◌, true, false, Option,
  none, some, [], ◌∷◌, ◌++◌, Bool-cases, drop, every, length, Text, starts_with, ok,
}
use cow_indexer.Hex.{
  lower_code, lower, is_hex_code, hex_prefix, prefixed, length_fits, normalize_hex,
}
use cow_indexer.Hex.Normal.{IsNormal, normalize_hex_iff}

-- A character that writes a hexadecimal digit, and that digit in its normal form: 0 to 9, a to f, or A
-- to F for a to f.
pub data IsDigitOf (c d : ℕ) : Type 0 where
  decimal : (k : ℕ) → k < 10 → c ≡ b'0' + k → d ≡ b'0' + k → IsDigitOf c d
  small : (k : ℕ) → k < 6 → c ≡ b'a' + k → d ≡ b'a' + k → IsDigitOf c d
  capital : (k : ℕ) → k < 6 → c ≡ b'A' + k → d ≡ b'a' + k → IsDigitOf c d

pub data Spells : Text → Text → Type 0 where
  nil : Spells [] []
  cons : {c d : ℕ} {cs ds : Text} → IsDigitOf c d → Spells cs ds → Spells (c ∷ cs) (d ∷ ds)

-- Two digits a byte.
abbrev pub HasBytes : Option ℕ → Text → Type 0
HasBytes none digits = Unit
HasBytes (some n) digits = length digits ≡ n + n

-- The digits of a value, written with the prefix 0x, with 0X or without one.
pub record IsNormalised (value : Text) (byte_length : Option ℕ) (r : Text) : Type 0 where
  pub body : Text
  pub digits : Text
  pub written : (value ≡ body) ⊎ ((value ≡ b'0' ∷ b'x' ∷ body) ⊎ (value ≡ b'0' ∷ b'X' ∷ body))
  pub spelled : Spells body digits
  pub result : r ≡ b'0' ∷ b'x' ∷ digits
  pub sized : HasBytes byte_length digits

digit_range :
    (c : ℕ)
    → is_hex_code (lower_code c) ≡ true
    → ((b'0' ≤ c) × (c < b'0' + 10) × (lower_code c ≡ c))
      ⊎ (((b'a' ≤ c) × (c < b'a' + 6) × (lower_code c ≡ c))
          ⊎ ((b'A' ≤ c) × (c < b'A' + 6) × (lower_code c ≡ c + 32)))
unfolding is_hex_code lower_code
digit_range c h = ground arith

digit_of : (c : ℕ) → is_hex_code (lower_code c) ≡ true → IsDigitOf c (lower_code c)
digit_of c h = elim (digit_range c h) [
  | inl (low, high, e) ↦ decimal (c - b'0') (omega arith) (omega arith) (omega (arith, e))
  | inr (inl (low, high, e)) ↦ small (c - b'a') (omega arith) (omega arith) (omega (arith, e))
  | inr (inr (low, high, e)) ↦ capital (c - b'A') (omega arith) (omega arith) (omega (arith, e))
]

Spells-lower : (body : Text) → every is_hex_code (lower body) ≡ true → Spells body (lower body)
unfolding lower
Spells-lower [] h = nil
Spells-lower (c ∷ cs) h = cons (digit_of c (ground arith)) (Spells-lower cs (ground arith))

digit_lower : (c d : ℕ) → IsDigitOf c d → (lower_code c ≡ d) × (is_hex_code d ≡ true)
unfolding is_hex_code lower_code
digit_lower c d (decimal k h e f) = (ground arith, ground arith)
digit_lower c d (small k h e f) = (ground arith, ground arith)
digit_lower c d (capital k h e f) = (ground arith, ground arith)

lower-Spells :
    {body digits : Text}
    → Spells body digits
    → (lower body ≡ digits) × (every is_hex_code digits ≡ true)
unfolding lower
lower-Spells nil = (refl, refl)
lower-Spells (cons {c} {d} one more) =
    let (same, digit) = digit_lower c d one in
    let (sames, digits) = lower-Spells more in (rw (same, sames) refl, rw (digit, digits) refl)

-- Digits do not begin with the prefix, whose x is none.
digits_prefix : (ds : Text) → every is_hex_code ds ≡ true → starts_with hex_prefix ds ≡ false
unfolding starts_with is_hex_code
digits_prefix [] h = refl
digits_prefix (a ∷ []) h = ground arith
digits_prefix (a ∷ b ∷ ds) h = ground arith

fits-HasBytes : (n : Option ℕ) (ds : Text) → length_fits n ds ≡ true → HasBytes n ds
unfolding length_fits
fits-HasBytes none ds h = tt
fits-HasBytes (some n) ds h = ground arith

HasBytes-fits : (n : Option ℕ) (ds : Text) → HasBytes n ds → length_fits n ds ≡ true
unfolding length_fits
HasBytes-fits none ds h = refl
HasBytes-fits (some n) ds h = ground arith

prefix_codes :
    (a b : ℕ) (rest : Text)
    → starts_with hex_prefix (lower_code a ∷ lower_code b ∷ rest) ≡ true
    → (a ≡ b'0') × ((b ≡ b'x') ⊎ (b ≡ b'X'))
unfolding starts_with lower_code
prefix_codes a b rest h = ground arith

-- What lowers to a text with the prefix.
prefix_written :
    (value : Text)
    → starts_with hex_prefix (lower value) ≡ true
    → (body : Text) × (lower value ≡ hex_prefix ++ lower body)
      × ((value ≡ b'0' ∷ b'x' ∷ body) ⊎ (value ≡ b'0' ∷ b'X' ∷ body))
unfolding starts_with lower lower_code
prefix_written [] h = cc
prefix_written (a ∷ []) h = ground arith
prefix_written (a ∷ b ∷ body) h =
    let (e, second) = prefix_codes a b (lower body) h in
    elim second [
      | inl f ↦ (body, rw (e, f) refl, inl (rw (e, f) refl))
      | inr f ↦ (body, rw (e, f) refl, inr (rw (e, f) refl))
    ]

normalised :
    (value : Text) (n : Option ℕ) (r : Text)
    → IsNormal n r
    → prefixed (lower value) ≡ r
    → IsNormalised value n r
unfolding prefixed
normalised value n r h e = elim (Bool-cases (starts_with hex_prefix (lower value))) [
  | inl yes_prefix ↦
      let (body, lowered, written) = prefix_written value yes_prefix in
      let same : hex_prefix ++ lower body ≡ r = sym lowered ∙ (rw yes_prefix at e) in
      of_body body (inr written) same
  | inr no_prefix ↦ of_body value (inl refl) (rw no_prefix at e)
]
  where
    of_body :
        (body : Text)
        → (value ≡ body) ⊎ ((value ≡ b'0' ∷ b'x' ∷ body) ⊎ (value ≡ b'0' ∷ b'X' ∷ body))
        → hex_prefix ++ lower body ≡ r
        → IsNormalised value n r
    of_body body written same = record {
      body = body;
      digits = lower body;
      written = written;
      spelled = Spells-lower body (ap (λ t. every is_hex_code (drop 2 t)) same ∙ h.hexadecimal);
      result = sym same;
      sized = fits-HasBytes n (lower body) (ap (λ t. length_fits n (drop 2 t)) same ∙ h.fits);
    }

prefixed-written :
    (value body digits : Text)
    → (value ≡ body) ⊎ ((value ≡ b'0' ∷ b'x' ∷ body) ⊎ (value ≡ b'0' ∷ b'X' ∷ body))
    → Spells body digits
    → prefixed (lower value) ≡ b'0' ∷ b'x' ∷ digits
unfolding prefixed lower lower_code starts_with
prefixed-written value body digits (inl e) spelled =
    let (same, hexadecimal) = lower-Spells spelled in
    rw (e, same, digits_prefix digits hexadecimal) refl
prefixed-written value body digits (inr (inl e)) spelled =
    rw e (ap (λ t. b'0' ∷ b'x' ∷ t) (lower-Spells spelled).0)
prefixed-written value body digits (inr (inr e)) spelled =
    rw e (ap (λ t. b'0' ∷ b'x' ∷ t) (lower-Spells spelled).0)

-- `normalize_hex` succeeds with `r` if and only if the value is written in hexadecimal digits, small or
-- capital, after the prefix 0x or 0X or without one, with two digits for each byte of the length that
-- is asked for, if one is, and `r` is 0x followed by the same digits, all of them small.
pub normalize_hex-IsNormalised :
    (value : Text) (n : Option ℕ) (r : Text)
    → (normalize_hex value n ≡ ok r) ↔ IsNormalised value n r
normalize_hex-IsNormalised value n r = (forth, back)
  where
    forth : normalize_hex value n ≡ ok r → IsNormalised value n r
    forth e = let (h, same) = (normalize_hex_iff value n r).0 e in normalised value n r h same

    back : IsNormalised value n r → normalize_hex value n ≡ ok r
    back h =
        let (same, hexadecimal) = lower-Spells h.spelled in
        (normalize_hex_iff value n r).1 (
          record {
            prefix = ap (starts_with hex_prefix) h.result ∙ (unfold starts_with in refl);
            hexadecimal = ap (λ t. every is_hex_code (drop 2 t)) h.result ∙ hexadecimal;
            fits = ap (λ t. length_fits n (drop 2 t)) h.result ∙ HasBytes-fits n h.digits h.sized;
          },
          prefixed-written value h.body h.digits h.written h.spelled ∙ sym h.result,
        )
