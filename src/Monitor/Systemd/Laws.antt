-- ===== src/Monitor/Systemd/Laws.antt =====
-- No two units share an object path.
use ship_status_dash.Base.{
  ℕ, ◌/◌, ◌%◌, ◌<◌, ◌≡◌, ◌≢◌, refl, inl, inr, [], ◌∷◌, Bytes, arith, All, Bool-cases, if◌then◌else◌,
}
use ship_status_dash.Monitor.Systemd.{is_alphanumeric, hex_digit, escape_unit_name}

-- A byte with the bytes that stand for it.
abbrev escaped : ℕ → Bytes → Bytes
escaped c rest =
    if is_alphanumeric c then c ∷ rest else 95 ∷ (hex_digit (c / 16) ∷ (hex_digit (c % 16) ∷ rest))

hex_digit-injective : (m n : ℕ) → m < 16 → n < 16 → hex_digit m ≡ hex_digit n → m ≡ n
hex_digit-injective m n h k e = ground arith

same_byte : (c d : ℕ) → c / 16 ≡ d / 16 → c % 16 ≡ d % 16 → c ≡ d
same_byte c d h k = omega arith

escaped-injective :
    (c d : ℕ) (xs ys : Bytes)
    → c < 256
    → d < 256
    → escaped c xs ≡ escaped d ys
    → (c ≡ d) × (xs ≡ ys)
escaped-injective c d xs ys h k e = elim (Bool-cases (is_alphanumeric c)) [
  | inl p ↦ elim (Bool-cases (is_alphanumeric d)) [
    | inl q ↦ ground (arith, p, q, e)
    | inr q ↦ ground (arith, p, q, e)
  ]
  | inr p ↦ elim (Bool-cases (is_alphanumeric d)) [
    | inl q ↦ ground (arith, p, q, e)
    | inr q ↦
        let high : c / 16 ≡ d / 16 =
          hex_digit-injective (c / 16) (d / 16) (omega (arith, h)) (omega (arith, k))
            (ground (arith, p, q, e)) in
        let low : c % 16 ≡ d % 16 =
          hex_digit-injective (c % 16) (d % 16) (omega arith) (omega arith)
            (ground (arith, p, q, e)) in
        (same_byte c d high low, ground (arith, p, q, e))
  ]
]

escape_unit_name-injective :
    (xs ys : Bytes)
    → All (λ c. c < 256) xs
    → All (λ c. c < 256) ys
    → escape_unit_name xs ≡ escape_unit_name ys
    → xs ≡ ys
unfolding escape_unit_name
escape_unit_name-injective [] [] h k e = refl
escape_unit_name-injective [] (d ∷ ys) h k e = ground (arith, e)
escape_unit_name-injective (c ∷ xs) [] h k e = ground (arith, e)
escape_unit_name-injective (c ∷ xs) (d ∷ ys) h k e =
    let (same, rest) =
      escaped-injective c d (escape_unit_name xs) (escape_unit_name ys) h.0 k.0 e in
    cc (same, escape_unit_name-injective xs ys h.1 k.1 rest)

-- Two units whose names have different bytes have different escaped names.
pub escape_unit_name-distinct :
    (xs ys : Bytes)
    → All (λ c. c < 256) xs
    → All (λ c. c < 256) ys
    → xs ≢ ys
    → escape_unit_name xs ≢ escape_unit_name ys
escape_unit_name-distinct xs ys h k other e = other (escape_unit_name-injective xs ys h k e)
