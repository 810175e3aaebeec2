-- ===== src/Bridge/Events/Serial.antt =====
-- `snprintf (serial, sizeof (serial), "%08x", devinfo->serial)`, and its inverse.
use native.Mathlib.Nat.{pow-suc}
use libdc_swift.Prelude.{
  ◌∙◌, ℕ, zero, suc, ◌+◌, ◌-◌, ◌*◌, ◌/◌, ◌%◌, ◌^◌, ◌<◌, ◌≡◌, refl, [], ◌∷◌, ◌++◌, ltb,
  if◌then◌else◌, length, Text, arith, length-append,
}

pub hex_digit : ℕ → ℕ
hex_digit n = if ltb n 10 then b'0' + n else b'a' + (n - 10)

-- The last `k` hexadecimal digits of a number, padded by zeros.
pub hex_text : ℕ → ℕ → Text
unfolding hex_digit
hex_text zero n = []
hex_text (suc k) n = hex_text k (n / 16) ++ hex_digit (n % 16) ∷ []

-- A serial number has 32 bits, so that eight digits hold it.
unfoldable pub serial_text : ℕ → Text
unfolding hex_text
serial_text serial = hex_text 8 serial

pub digit_value : ℕ → ℕ
digit_value c = if ltb c b'a' then c - b'0' else c - b'a' + 10

-- The number that a hexadecimal text stands for, read behind `acc`.
pub hex_value : ℕ → Text → ℕ
unfolding digit_value
hex_value acc [] = acc
hex_value acc (c ∷ cs) = hex_value (acc * 16 + digit_value c) cs

digit_value-hex_digit : (n : ℕ) → n < 16 → digit_value (hex_digit n) ≡ n
unfolding digit_value hex_digit
digit_value-hex_digit n h = ground arith

hex_value-append :
    (acc : ℕ) (xs ys : Text) → hex_value acc (xs ++ ys) ≡ hex_value (hex_value acc xs) ys
unfolding hex_value
hex_value-append acc [] ys = refl
hex_value-append acc (x ∷ xs) ys = hex_value-append (acc * 16 + digit_value x) xs ys

hex_value-hex_text : (k n : ℕ) → n < 16 ^ k → hex_value 0 (hex_text k n) ≡ n
unfolding hex_value hex_text
hex_value-hex_text zero n h = omega arith
hex_value-hex_text (suc k) n h =
    let high = hex_value-hex_text k (n / 16) (omega (arith, pow-suc 16 k)) in
    let low = digit_value-hex_digit (n % 16) (omega arith) in
    hex_value-append 0 (hex_text k (n / 16)) (hex_digit (n % 16) ∷ [])
    ∙ rw (high, low) (omega arith)

length-hex_text : (k n : ℕ) → length (hex_text k n) ≡ k
unfolding hex_text
length-hex_text zero n = refl
length-hex_text (suc k) n =
    length-append (hex_text k (n / 16)) (hex_digit (n % 16) ∷ [])
    ∙ omega (arith, length-hex_text k (n / 16))

-- The text of a serial number of 32 bits has eight characters, and reading it as a hexadecimal
-- number gives the serial number back: two serial numbers never share a text.
pub serial_text-roundtrip :
    (serial : ℕ)
    → serial < 2 ^ 32
    → (hex_value 0 (serial_text serial) ≡ serial) × (length (serial_text serial) ≡ 8)
unfolding serial_text
serial_text-roundtrip serial h =
    (hex_value-hex_text 8 serial (omega arith), length-hex_text 8 serial)
