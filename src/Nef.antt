-- ===== src/Nef.antt =====
-- The NEF container (neo-compiler/src/target/nef.rs): variable-length integers and byte arrays,
-- method tokens, the file and its reader. SHA-256 is the crate's; the checksum of the bytes, as
-- `compute_checksum` gives it, is a parameter.
pub mod VarInt
pub mod Tokens
pub mod File
pub mod FileRoundTrip
use neo_lang.Prelude.{
  ℕ, suc, ◌+◌, ◌*◌, ◌^◌, Bool, true, false, Option, none, some, List, [], ◌∷◌, ◌++◌, ◌==◌, leb, ltb,
  if◌then◌else◌, length, get_elem?, take, drop, Result, ok, err, ◌>>=◌,
}
use neo_lang.Prelude.Bytes.{to_le_bytes, from_le_bytes}

-- The reader's errors, one for each message, and the panic.
pub data NefError : Type 0 where
  truncated_varint truncated_u16_varint truncated_u32_varint truncated_u64_varint : NefError
  invalid_prefix truncated_byte_array file_too_small wrong_magic : NefError
  missing_reserve1 bad_reserve1 tokens_not_implemented missing_reserve2 bad_reserve2 : NefError
  bad_checksum_position checksum_mismatch : NefError
  panic : NefError

-- The value is a u64.
unfoldable pub write_var_int : List ℕ → ℕ → List ℕ
write_var_int out value =
    if ltb value 0xFD
    then out ++ value ∷ []
    else if leb value 0xFFFF
    then out ++ (0xFD ∷ to_le_bytes 2 value)
    else if leb value 0xFFFF_FFFF
    then out ++ (0xFE ∷ to_le_bytes 4 value)
    else out ++ (0xFF ∷ to_le_bytes 8 value)

unfoldable pub write_var_bytes : List ℕ → List ℕ → List ℕ
write_var_bytes out bytes = write_var_int out (length bytes) ++ bytes

-- `bytes[start..start + n]`.
abbrev pub slice : List ℕ → ℕ → ℕ → List ℕ
slice bytes start n = take n (drop start bytes)

-- A prefix and an integer of `n` bytes behind it.
unfoldable pub read_wide : List ℕ → ℕ → ℕ → NefError → Result NefError (ℕ × ℕ)
read_wide bytes index n truncated =
    if ltb (length bytes) (index + (1 + n))
    then err truncated
    else ok (from_le_bytes (slice bytes (index + 1) n), index + (1 + n))

read_prefix : List ℕ → ℕ → Option ℕ → Result NefError (ℕ × ℕ)
unfolding read_wide
read_prefix bytes index none = err truncated_varint
read_prefix bytes index (some fb) =
    if ltb fb 0xFD
    then ok (fb, index + 1)
    else if fb == 0xFD
    then read_wide bytes index 2 truncated_u16_varint
    else if fb == 0xFE
    then read_wide bytes index 4 truncated_u32_varint
    else if fb == 0xFF
    then read_wide bytes index 8 truncated_u64_varint
    else err invalid_prefix

-- The value and the index behind it.
unfoldable pub read_var_int : List ℕ → ℕ → Result NefError (ℕ × ℕ)
unfolding read_prefix
read_var_int bytes index = read_prefix bytes index (get_elem? bytes index)

-- Where `index + len` exceeds a 64-bit `usize`, the sum is a panic, or wraps to an end before the
-- start of the slice, which is one too.
take_payload : List ℕ → ℕ → ℕ → Result NefError (List ℕ × ℕ)
take_payload bytes len index =
    if leb (2 ^ 64) (index + len)
    then err panic
    else if ltb (length bytes) (index + len)
    then err truncated_byte_array
    else ok (slice bytes index len, index + len)

-- On a 64-bit host every u64 is a `usize`.
unfoldable pub read_var_bytes : List ℕ → ℕ → Result NefError (List ℕ × ℕ)
unfolding take_payload
read_var_bytes bytes index = read_var_int bytes index >>= λ r. take_payload bytes r.0 r.1
