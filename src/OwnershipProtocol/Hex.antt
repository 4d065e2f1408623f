-- ===== src/OwnershipProtocol/Hex.antt =====
-- `encode_hex`, `decode_hex` and `hex_digit` of src/ownership_protocol.rs. A byte is a number below
-- 256; an encoded string is its ASCII bytes.
use worktree_gc.Base.{
  ℕ, ◌+◌, ◌-◌, ◌*◌, ◌/◌, ◌%◌, ◌<◌, ◌≡◌, refl, ap, true, ◌&&◌, List, [], ◌∷◌, arith, leb, length,
  get_or, All, if◌then◌else◌, nat_beq, nat_beq_iff, ltb, all_below, all_below_sound, Result, ok,
  err, ensure, ◌>>=◌, ◌>>◌, >>=-eq-ok,
}

pub data HexError : Type 0 where
  odd_length non_lowercase_hex : HexError

-- const HEX: &[u8; 16] = b"0123456789abcdef"
abbrev hex_table : List ℕ
hex_table =
    b'0' ∷ b'1' ∷ b'2' ∷ b'3' ∷ b'4' ∷ b'5' ∷ b'6' ∷ b'7' ∷ b'8' ∷ b'9' ∷ b'a' ∷ b'b' ∷ b'c' ∷ b'd'
    ∷ b'e' ∷ b'f' ∷ []

hex_char : ℕ → ℕ
hex_char n = get_or hex_table n 0

-- `byte >> 4` is `byte / 16` and `byte & 0x0f` is `byte % 16`.
unfoldable pub encode_hex : List ℕ → List ℕ
unfolding hex_char
encode_hex [] = []
encode_hex (byte ∷ bytes) = hex_char (byte / 16) ∷ hex_char (byte % 16) ∷ encode_hex bytes

unfoldable pub hex_digit : ℕ → Result HexError ℕ
hex_digit byte =
    if leb b'0' byte && leb byte b'9'
    then ok (byte - b'0')
    else if leb b'a' byte && leb byte b'f'
    then ok (byte - b'a' + 10)
    else err non_lowercase_hex

-- The closure under `chunks(2)`; both digits are below 16, so `(high << 4) | low` is a sum. A chunk of
-- one byte would be out of bounds, and the test on the length excludes it.
decode_pairs : List ℕ → Result HexError (List ℕ)
decode_pairs [] = ok []
decode_pairs (_ ∷ []) = err odd_length
decode_pairs (a ∷ b ∷ rest) = do
  high ← hex_digit a
  low ← hex_digit b
  bytes ← decode_pairs rest
  ok ((high * 16 + low) ∷ bytes)

unfoldable pub decode_hex : List ℕ → Result HexError (List ℕ)
unfolding decode_pairs hex_digit
decode_hex encoded = do ensure (nat_beq (length encoded % 2) 0) odd_length; decode_pairs encoded

abbrev pub IsBytes : List ℕ → Type 0
IsBytes = All (λ b. b < 256)

hex_table_check :
    all_below 16 (λ n. nat_beq (hex_char n) (if ltb n 10 then n + 48 else n + 87)) ≡ true
unfolding all_below hex_char
hex_table_check = refl

hex_char_lem : (n : ℕ) → n < 16 → hex_char n ≡ (if ltb n 10 then n + 48 else n + 87)
hex_char_lem n h = (nat_beq_iff _ _).0 (all_below_sound n 16 _ h hex_table_check)

hex_digit-hex_char : (n : ℕ) → n < 16 → hex_digit (hex_char n) ≡ ok n
unfolding hex_digit
hex_digit-hex_char n h = rw (hex_char_lem n h) (ground arith)

hex_digit-lt : (byte d : ℕ) → hex_digit byte ≡ ok d → d < 16
unfolding hex_digit
hex_digit-lt byte d h = ground arith

-- A digit that decodes is the table's.
hex_char-hex_digit : (byte d : ℕ) → hex_digit byte ≡ ok d → hex_char d ≡ byte
hex_char-hex_digit byte d h =
    rw (hex_char_lem d (hex_digit-lt byte d h)) (unfold hex_digit in ground arith)

length-encode_hex : (bytes : List ℕ) → length (encode_hex bytes) ≡ 2 * length bytes
unfolding encode_hex
length-encode_hex [] = omega arith
length-encode_hex (b ∷ bytes) = omega (arith, length-encode_hex bytes)

decode_pairs-encode_hex :
    (bytes : List ℕ) → IsBytes bytes → decode_pairs (encode_hex bytes) ≡ ok bytes
unfolding decode_pairs encode_hex
decode_pairs-encode_hex [] h = refl
decode_pairs-encode_hex (b ∷ bytes) h =
    rw
      (
        hex_digit-hex_char (b / 16) (let lt = h.0 in omega arith),
        hex_digit-hex_char (b % 16) (omega arith),
        decode_pairs-encode_hex bytes h.1,
      )
      (ap (λ x. ok (x ∷ bytes)) (let lt = h.0 in omega arith))

encode_hex-pair :
    (high low : ℕ) (bytes : List ℕ)
    → high < 16
    → low < 16
    → encode_hex ((high * 16 + low) ∷ bytes) ≡ hex_char high ∷ hex_char low ∷ encode_hex bytes
unfolding encode_hex
encode_hex-pair high low bytes h l =
    let q : (high * 16 + low) / 16 ≡ high = omega arith in
    let r : (high * 16 + low) % 16 ≡ low = omega arith in rw (q, r)

encode_hex-decode_pairs :
    (encoded bytes : List ℕ) → decode_pairs encoded ≡ ok bytes → encode_hex bytes ≡ encoded
unfolding decode_pairs
encode_hex-decode_pairs [] bytes h = let e : [] ≡ bytes = cc in rw (← e) (unfold encode_hex in refl)
encode_hex-decode_pairs (a ∷ []) bytes h = cc
encode_hex-decode_pairs (a ∷ b ∷ rest) bytes h =
    let (high, eh, h1) = >>=-eq-ok (hex_digit a) _ h in
    let (low, el, h2) = >>=-eq-ok (hex_digit b) _ h1 in
    let (tail, et, h3) = >>=-eq-ok (decode_pairs rest) _ h2 in
    let e : (high * 16 + low) ∷ tail ≡ bytes = cc in
    rw (
      ← e,
      encode_hex-pair high low tail (hex_digit-lt a high eh) (hex_digit-lt b low el),
      hex_char-hex_digit a high eh,
      hex_char-hex_digit b low el,
      encode_hex-decode_pairs rest tail et,
    )

decode_pairs-IsBytes : (encoded bytes : List ℕ) → decode_pairs encoded ≡ ok bytes → IsBytes bytes
unfolding decode_pairs
decode_pairs-IsBytes [] bytes h = let e : [] ≡ bytes = cc in rw (← e) tt
decode_pairs-IsBytes (a ∷ []) bytes h = cc
decode_pairs-IsBytes (a ∷ b ∷ rest) bytes h =
    let (high, eh, h1) = >>=-eq-ok (hex_digit a) _ h in
    let (low, el, h2) = >>=-eq-ok (hex_digit b) _ h1 in
    let (tail, et, h3) = >>=-eq-ok (decode_pairs rest) _ h2 in
    let e : (high * 16 + low) ∷ tail ≡ bytes = cc in
    let hi = hex_digit-lt a high eh in
    let lo = hex_digit-lt b low el in rw (← e) (omega arith, decode_pairs-IsBytes rest tail et)

-- Decoding what was encoded gives the bytes back, whatever bytes they are.
pub decode_hex-encode_hex :
    (bytes : List ℕ) → IsBytes bytes → decode_hex (encode_hex bytes) ≡ ok bytes
unfolding decode_hex
decode_hex-encode_hex bytes h =
    let e : length (encode_hex bytes) % 2 ≡ 0 = omega (arith, length-encode_hex bytes) in
    rw e (decode_pairs-encode_hex bytes h)

-- Only the canonical spelling of a byte string decodes: a string that decodes is what encoding the
-- decoded bytes gives, and these are bytes.
pub encode_hex-decode_hex :
    (encoded bytes : List ℕ)
    → decode_hex encoded ≡ ok bytes
    → (encode_hex bytes ≡ encoded) × IsBytes bytes
unfolding decode_hex
encode_hex-decode_hex encoded bytes h =
    let (_, _, h1) = >>=-eq-ok (ensure (nat_beq (length encoded % 2) 0) odd_length) _ h in
    (encode_hex-decode_pairs encoded bytes h1, decode_pairs-IsBytes encoded bytes h1)
