-- ===== src/Hex/Normal.antt =====
-- `normalize_hex` of src/cow_indexer/utils.py: which texts it accepts, and its fixed points.
use cow_indexer.Prelude.{
  ℕ, ◌≡◌, refl, sym, ap, subst, ◌↔◌, true, Option, [], ◌∷◌, ◌++◌, arith, Bool-cases, inl, inr, drop,
  every, Text, starts_with, ok, ◌>>◌, require,
}
use cow_indexer.Hex.{
  not_hexadecimal, wrong_length, lower_code, lower, is_hex_code, hex_prefix, prefixed, length_fits,
  normalize_hex,
}

-- A text in normal form: the prefix, then lower-case digits, as many as the length asks for.
pub record IsNormal (byte_length : Option ℕ) (s : Text) : Type 0 where
  pub prefix : starts_with hex_prefix s ≡ true
  pub hexadecimal : every is_hex_code (drop 2 s) ≡ true
  pub fits : length_fits byte_length (drop 2 s) ≡ true

lower_code-hex : (c : ℕ) → is_hex_code c ≡ true → lower_code c ≡ c
unfolding is_hex_code lower_code
lower_code-hex c h = ground arith

lower-hex : (s : Text) → every is_hex_code s ≡ true → lower s ≡ s
unfolding lower
lower-hex [] h = refl
lower-hex (c ∷ s) h = ground (arith, lower_code-hex c, lower-hex s)

lower_code-lower_code : (c : ℕ) → lower_code (lower_code c) ≡ lower_code c
unfolding lower_code
lower_code-lower_code c = ground arith

starts_with-append : (p s : Text) → starts_with p (p ++ s) ≡ true
unfolding starts_with
starts_with-append [] s = refl
starts_with-append (c ∷ p) s = ground (arith, starts_with-append p s)

starts_with-prefixed : (s : Text) → starts_with hex_prefix (prefixed s) ≡ true
unfolding prefixed
starts_with-prefixed s = elim (Bool-cases (starts_with hex_prefix s)) [
  | inl yes_prefix ↦ rw yes_prefix yes_prefix
  | inr no_prefix ↦ rw no_prefix (starts_with-append hex_prefix s)
]

-- What has the prefix is the prefix and its payload.
pub prefix-payload : (s : Text) → starts_with hex_prefix s ≡ true → s ≡ hex_prefix ++ drop 2 s
unfolding starts_with
prefix-payload [] h = cc
prefix-payload (a ∷ []) h = ground arith
prefix-payload (a ∷ b ∷ s) h = ground arith

lower-IsNormal : (n : Option ℕ) (s : Text) → IsNormal n s → lower s ≡ s
unfolding lower lower_code
lower-IsNormal n s h =
    let payload : lower (drop 2 s) ≡ drop 2 s = lower-hex (drop 2 s) h.hexadecimal in
    subst (λ t. lower t ≡ t) (sym (prefix-payload s h.prefix)) (ap (λ t. 48 ∷ 120 ∷ t) payload)

-- The two tests of `normalize_hex` as one condition.
checks_pass :
    (n : Option ℕ) (s r : Text)
    → (do
      require (every is_hex_code (drop 2 s)) not_hexadecimal
      require (length_fits n (drop 2 s)) wrong_length
      ok s)
      ≡ ok r
    → (s ≡ r) × (every is_hex_code (drop 2 s) ≡ true) × (length_fits n (drop 2 s) ≡ true)
checks_pass n s r h = ground arith

-- `normalize_hex` returns exactly the normal form that prefixing and lowering give: it succeeds
-- with `r` if and only if `r` is the prefixed lower-case input and has only hexadecimal digits, of
-- the length asked for.
pub normalize_hex_iff :
    (value : Text) (n : Option ℕ) (r : Text)
    → (normalize_hex value n ≡ ok r) ↔ (IsNormal n r × (prefixed (lower value) ≡ r))
unfolding normalize_hex
normalize_hex_iff value n r = (forth, back)
  where
    forth : normalize_hex value n ≡ ok r → IsNormal n r × (prefixed (lower value) ≡ r)
    forth h =
        let (e, digits, fits) = checks_pass n (prefixed (lower value)) r h in
        rw (← e) (
          record { prefix = starts_with-prefixed (lower value); hexadecimal = digits; fits = fits },
          refl,
        )

    back : IsNormal n r × (prefixed (lower value) ≡ r) → normalize_hex value n ≡ ok r
    back (h, e) = rw (e, h.hexadecimal, h.fits)

-- A normal form is normalised to itself.
pub normalize_hex-IsNormal : (n : Option ℕ) (s : Text) → IsNormal n s → normalize_hex s n ≡ ok s
unfolding prefixed
normalize_hex-IsNormal n s h = (normalize_hex_iff s n s).1 (h, rw (lower-IsNormal n s h, h.prefix))

pub normalize_hex_idem :
    (value : Text) (n : Option ℕ) (r : Text)
    → normalize_hex value n ≡ ok r
    → normalize_hex r n ≡ ok r
normalize_hex_idem value n r h = normalize_hex-IsNormal n r ((normalize_hex_iff value n r).0 h).0
