-- ===== src/Nef/File.antt =====
-- The file: `Nef3`, its bytes and `extract_script`.
use neo_lang.Prelude.{
  Option, ℕ, ◌+◌, Bool, true, false, none, some, List, [], ◌∷◌, ◌++◌, ◌==◌, leb, length, get_elem?,
  take, min, replicate, ◌-◌, Result, ok, err, ◌>>=◌,
}
use neo_lang.Prelude.Bytes.{to_le_bytes, from_le_bytes}
use neo_lang.Nef.{
  NefError, file_too_small, wrong_magic, missing_reserve1, bad_reserve1, tokens_not_implemented,
  missing_reserve2, bad_reserve2, bad_checksum_position, checksum_mismatch, write_var_int,
  write_var_bytes, slice, read_var_int, read_var_bytes,
}
use neo_lang.Nef.Tokens.{MethodToken, encode_token}

pub record Nef3 : Type 0 where
  pub magic : ℕ
  pub compiler : List ℕ
  pub source : List ℕ
  pub tokens : List MethodToken
  pub script : List ℕ

abbrev pub nef_magic : ℕ
nef_magic = 0x3346_454e

-- `Nef3::new`: the name of the compiler is cut or padded to 64 bytes.
unfoldable pub new : List ℕ → List ℕ → Nef3
new script compiler = record {
  magic = nef_magic;
  compiler =
      take (min (length compiler) 64) compiler ++ replicate (64 - min (length compiler) 64) 0;
  source = [];
  tokens = [];
  script = script;
}

unfoldable pub encode_tokens : List ℕ → List MethodToken → List ℕ
encode_tokens out [] = out
encode_tokens out (t ∷ ts) = encode_tokens (encode_token out t) ts

-- All bytes before the checksum.
unfoldable pub body_bytes : Nef3 → List ℕ
body_bytes nef =
    let out = to_le_bytes 4 nef.magic ++ nef.compiler in
    let out = write_var_bytes out nef.source ++ 0 ∷ [] in
    let out = encode_tokens (write_var_int out (length nef.tokens)) nef.tokens in
    write_var_bytes (out ++ to_le_bytes 2 0) nef.script

-- `o.ok_or(e)`.
abbrev pub ok_or : Option ℕ → NefError → Result NefError ℕ
ok_or none e = err e
ok_or (some b) e = ok b

abbrev pub ensure : Bool → NefError → Result NefError (Unit {0})
ensure true e = ok tt
ensure false e = err e

-- `compute_checksum` hashes by SHA-256, twice, and reads four bytes.
module _ (compute_checksum : List ℕ → ℕ) where
  unfoldable pub to_bytes : Nef3 → List ℕ
  to_bytes nef = body_bytes nef ++ to_le_bytes 4 (compute_checksum (body_bytes nef))

  -- From the script on.
  unfoldable pub extract_tail : List ℕ → ℕ → Result NefError (List ℕ)
  extract_tail bytes index = do
    (script, index) ← read_var_bytes bytes index
    _ ← ensure (index + 4 == length bytes) bad_checksum_position
    _ ←
        ensure (compute_checksum (take index bytes) == from_le_bytes (slice bytes index 4))
          checksum_mismatch
    ok script

  -- From the source on.
  unfoldable pub extract_fields : List ℕ → ℕ → Result NefError (List ℕ)
  unfolding extract_tail
  extract_fields bytes index = do
    (_, index) ← read_var_bytes bytes index
    r1 ← ok_or (get_elem? bytes index) missing_reserve1
    _ ← ensure (r1 == 0) bad_reserve1
    (n_tokens, index) ← read_var_int bytes (index + 1)
    _ ← ensure (n_tokens == 0) tokens_not_implemented
    _ ← ensure (leb (index + 2) (length bytes)) missing_reserve2
    _ ← ensure (from_le_bytes (slice bytes index 2) == 0) bad_reserve2
    extract_tail bytes (index + 2)

  unfoldable pub extract_script : List ℕ → Result NefError (List ℕ)
  unfolding extract_fields
  extract_script bytes = do
    _ ← ensure (leb (4 + 64 + 1 + 2 + 4) (length bytes)) file_too_small
    _ ← ensure (from_le_bytes (slice bytes 0 4) == nef_magic) wrong_magic
    extract_fields bytes (4 + 64)
