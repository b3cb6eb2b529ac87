-- ===== src/Protocol/Crc/Detect.antt =====
-- What the checksum promises: it is a byte, and it tells texts apart that differ in one character.
use embedded_test_runner.Base.Bits.{
  passes_under, passes_under_sound, xor-lt, xor_comm, xor_injective,
}
use Prim.Native.Nat.{bit_and, bit_xor}
use embedded_test_runner.Base.{
  ℕ, zero, suc, ◌+◌, ◌/◌, ◌<◌, ◌≡◌, ◌≢◌, refl, sym, ap, ◌∙◌, true, ◌&&◌, List, [], ◌∷◌, ◌++◌, arith,
  ltb, lt→ltb, ◌==◌, if◌then◌else◌, Text,
}
use embedded_test_runner.Protocol.Utf8.{encode, encode-append, encode-AreBytes, IsText, AreBytes}
use embedded_test_runner.Protocol.Crc.{
  crc_round, crc_rounds, crc_byte, crc_bytes, crc8_poly, crc8_init, compute_crc8,
}

-- a round backwards
unround : ℕ → ℕ
unround crc = if bit_and crc 1 == 0 then crc / 2 else bit_xor crc crc8_poly / 2 + 0x80

round_table : passes_under (λ c. unround (crc_round c) == c && ltb (crc_round c) 256) 256 ≡ true
unfolding passes_under unround crc_round
round_table = refl

round_checked : (c : ℕ) → c < 256 → (unround (crc_round c) == c && ltb (crc_round c) 256) ≡ true
round_checked c h = passes_under_sound _ 256 round_table c h

crc_round-lt : (c : ℕ) → c < 256 → crc_round c < 256
crc_round-lt c h = ground (arith, round_checked c h)

unround-crc_round : (c : ℕ) → c < 256 → unround (crc_round c) ≡ c
unround-crc_round c h = ground (arith, round_checked c h)

crc_rounds-lt : (n c : ℕ) → c < 256 → crc_rounds n c < 256
unfolding crc_rounds
crc_rounds-lt zero c h = h
crc_rounds-lt (suc n) c h = crc_rounds-lt n (crc_round c) (crc_round-lt c h)

crc_rounds_injective : (n a b : ℕ) → a < 256 → b < 256 → crc_rounds n a ≡ crc_rounds n b → a ≡ b
unfolding crc_rounds
crc_rounds_injective zero a b ha hb e = e
crc_rounds_injective (suc n) a b ha hb e =
    sym (unround-crc_round a ha)
    ∙ ap unround (crc_rounds_injective n _ _ (crc_round-lt a ha) (crc_round-lt b hb) e)
    ∙ unround-crc_round b hb

crc_byte-lt : (s b : ℕ) → s < 256 → b < 256 → crc_byte s b < 256
unfolding crc_byte
crc_byte-lt s b hs hb = crc_rounds-lt 8 (bit_xor s b) (xor-lt s b hs hb)

module _ (s t a b : ℕ) (hs : s < 256) (ht : t < 256) (ha : a < 256) (hb : b < 256) where
  crc_byte_injective : crc_byte s a ≡ crc_byte s b → a ≡ b
  unfolding crc_byte
  crc_byte_injective e =
      xor_injective s a b hs ha hb
        (crc_rounds_injective 8 _ _ (xor-lt s a hs ha) (xor-lt s b hs hb) e)

  crc_byte_injective_state : crc_byte s a ≡ crc_byte t a → s ≡ t
  unfolding crc_byte
  crc_byte_injective_state e = xor_injective a s t ha hs ht (
      xor_comm a s ha hs
      ∙ crc_rounds_injective 8 _ _ (xor-lt s a hs ha) (xor-lt t a ht ha) e
      ∙ xor_comm t a ht ha)

crc_bytes-lt : (bs : List ℕ) (s : ℕ) → s < 256 → AreBytes bs → crc_bytes s bs < 256
unfolding crc_bytes
crc_bytes-lt [] s hs h = hs
crc_bytes-lt (b ∷ bs) s hs h = crc_bytes-lt bs (crc_byte s b) (crc_byte-lt s b hs h.0) h.1

crc_bytes-append : (xs ys : List ℕ) (s : ℕ) → crc_bytes s (xs ++ ys) ≡ crc_bytes (crc_bytes s xs) ys
unfolding crc_bytes
crc_bytes-append [] ys s = refl
crc_bytes-append (x ∷ xs) ys s = crc_bytes-append xs ys (crc_byte s x)

crc_bytes_injective :
    (bs : List ℕ) (s t : ℕ)
    → s < 256
    → t < 256
    → AreBytes bs
    → crc_bytes s bs ≡ crc_bytes t bs
    → s ≡ t
unfolding crc_bytes
crc_bytes_injective [] s t hs ht h e = e
crc_bytes_injective (b ∷ bs) s t hs ht h e =
    crc_byte_injective_state s t b b hs ht h.0 h.0
      (crc_bytes_injective bs _ _ (crc_byte-lt s b hs h.0) (crc_byte-lt t b ht h.0) h.1 e)

-- The checksum of any text fits in a byte.
pub compute_crc8-lt : (s : Text) → IsText s → compute_crc8 s < 256
unfolding compute_crc8
compute_crc8-lt s h = crc_bytes-lt (encode s) crc8_init (omega arith) (encode-AreBytes s h)

encode_ascii : (c : ℕ) (s : Text) → c < 128 → encode (c ∷ s) ≡ c ∷ encode s
unfolding encode
encode_ascii c s h = rw (lt→ltb c 128 h)

compute_crc8_split :
    (xs ys : Text) (c : ℕ)
    → c < 128
    → compute_crc8 (xs ++ c ∷ ys)
      ≡ crc_bytes (crc_byte (crc_bytes crc8_init (encode xs)) c) (encode ys)
unfolding compute_crc8
compute_crc8_split xs ys c h =
    ap (crc_bytes crc8_init)
      (encode-append xs (c ∷ ys) ∙ ap (λ r. encode xs ++ r) (encode_ascii c ys h))
    ∙ crc_bytes-append (encode xs) (c ∷ encode ys) crc8_init

-- Two texts that differ in exactly one character, an ASCII one in both, have different checksums,
-- whatever stands before and behind it: every single corrupted character is noticed.
pub compute_crc8_detects :
    (xs ys : Text) (a b : ℕ)
    → IsText xs
    → IsText ys
    → a < 128
    → b < 128
    → a ≢ b
    → compute_crc8 (xs ++ a ∷ ys) ≢ compute_crc8 (xs ++ b ∷ ys)
compute_crc8_detects xs ys a b hx hy ha hb ne e =
    let s = crc_bytes crc8_init (encode xs) in
    let hs : s < 256 = crc_bytes-lt (encode xs) crc8_init (omega arith) (encode-AreBytes xs hx) in
    let ha' : a < 256 = omega arith in
    let hb' : b < 256 = omega arith in
    ne (
      crc_byte_injective s s a b hs hs ha' hb' (
        crc_bytes_injective (encode ys) _ _ (crc_byte-lt s a hs ha') (crc_byte-lt s b hs hb')
          (encode-AreBytes ys hy)
          (sym (compute_crc8_split xs ys a ha) ∙ e ∙ compute_crc8_split xs ys b hb)))
