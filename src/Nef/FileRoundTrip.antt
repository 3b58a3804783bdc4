-- ===== src/Nef/FileRoundTrip.antt =====
-- Reading the script of a file back, and what an accepted file satisfies.
use neo_lang.Prelude.{
  ℕ, ◌+◌, ◌^◌, ◌≤◌, ◌<◌, ◌≡◌, refl, ap, ◌∙◌, sym, true, List, [], ◌∷◌, ◌++◌, ◌==◌, arith, length,
  get_elem?, take, drop, ok, some, le→leb, length-append, length-drop, take-append, drop-advance,
  take-read, drop-drop, get_elem?-drop, append_assoc, append-nil, eqb_refl,
}
use neo_lang.Prelude.Bytes.{to_le_bytes, from_le_bytes, length-to_le_bytes, from-to_le_bytes}
use neo_lang.Nef.{slice}
use neo_lang.Nef.VarInt.{
  var_int, var_bytes, write_var_int-append, write_var_bytes-append, read_var_int-reads,
  read_var_bytes-reads, var_int-zero, var_bytes-nonempty,
}
use neo_lang.Nef.File.{
  Nef3, nef_magic, encode_tokens, body_bytes, to_bytes, extract_tail, extract_fields,
  extract_script,
}

-- The fields of a file after the source, before the checksum, for a file with no tokens.
tail_bytes : Nef3 → List ℕ
tail_bytes nef = 0 ∷ 0 ∷ (to_le_bytes 2 0 ++ var_bytes nef.script)

tail_length : (nef : Nef3) → 5 ≤ length (tail_bytes nef)
unfolding tail_bytes
tail_length nef = omega (
  arith,
  length-append {0} (to_le_bytes 2 0) (var_bytes nef.script),
  length-to_le_bytes 2 0,
  var_bytes-nonempty nef.script,
)

-- The magic number and the width of the compiler's name.
pub record IsEncodable (nef : Nef3) : Type 0 where
  pub magic : nef.magic ≡ nef_magic
  pub compiler : length nef.compiler ≡ 64

header : Nef3 → List ℕ
header nef = to_le_bytes 4 nef.magic ++ nef.compiler

body_layout :
    (nef : Nef3)
    → nef.tokens ≡ []
    → body_bytes nef ≡ header nef ++ (var_bytes nef.source ++ tail_bytes nef)
unfolding body_bytes header tail_bytes encode_tokens
body_layout nef none_yet =
    rw none_yet (simp (write_var_bytes-append, write_var_int-append, var_int-zero, append_assoc))

module _ (compute_checksum : List ℕ → ℕ) (body script bytes : List ℕ)
    (whole : bytes ≡ body ++ to_le_bytes 4 (compute_checksum body))
    (small : compute_checksum body < 2 ^ 32) (addressable : length bytes < 2 ^ 64) where
  extract_tail-reads :
      (index : ℕ)
      → drop index bytes ≡ var_bytes script ++ to_le_bytes 4 (compute_checksum body)
      → extract_tail compute_checksum bytes index ≡ ok script
  unfolding extract_tail
  extract_tail-reads index h =
      let sum = to_le_bytes 4 (compute_checksum body) in
      let end = index + length (var_bytes script) in
      let len4 = length-to_le_bytes 4 (compute_checksum body) in
      let after : drop end bytes ≡ sum = drop-advance bytes (var_bytes script) sum index h in
      let total = ap length after in
      let all = ap length whole in
      let at_end : end + 4 ≡ length bytes = omega (arith, length-drop {0} end bytes, len4) in
      let at_body : end ≡ length body = omega (arith, len4, length-append {0} body sum) in
      let cut : take end bytes ≡ body =
        ap (take end) whole ∙ ap (λ k. take k (body ++ sum)) at_body ∙ take-append body sum in
      let last : slice bytes end 4 ≡ sum =
        ap (λ k. take k (drop end bytes)) (sym len4)
        ∙ take-read bytes sum [] end (after ∙ sym (append-nil sum)) in
      let value : from_le_bytes (slice bytes end 4) ≡ compute_checksum body =
        ap from_le_bytes last ∙ from-to_le_bytes 4 (compute_checksum body) small in
      let here : (end + 4 == length bytes) ≡ true =
        ap (λ k. k == length bytes) at_end ∙ eqb_refl (length bytes) in
      rw (read_var_bytes-reads bytes script sum index h addressable)
        (rw here (rw (cut, value) (rw (eqb_refl (compute_checksum body)) refl)))

module _ (compute_checksum : List ℕ → ℕ) (nef : Nef3) (e : IsEncodable nef)
    (no_tokens : nef.tokens ≡ []) (small : compute_checksum (body_bytes nef) < 2 ^ 32)
    (addressable : length (to_bytes compute_checksum nef) < 2 ^ 64) where
  layout :
      to_bytes compute_checksum nef
      ≡ header nef
        ++ (var_bytes nef.source
            ++ (tail_bytes nef ++ to_le_bytes 4 (compute_checksum (body_bytes nef))))
  unfolding to_bytes
  layout =
      let sum = to_le_bytes 4 (compute_checksum (body_bytes nef)) in
      ap (λ t. t ++ sum) (body_layout nef no_tokens)
      ∙ append_assoc (header nef) (var_bytes nef.source ++ tail_bytes nef) sum
      ∙ ap (λ t. header nef ++ t) (append_assoc (var_bytes nef.source) (tail_bytes nef) sum)

  length-header : length (header nef) ≡ 68
  unfolding header
  length-header = omega (
    arith,
    length-append {0} (to_le_bytes 4 nef.magic) nef.compiler,
    length-to_le_bytes 4 nef.magic,
    e.compiler,
  )

  extract_fields-reads :
      extract_fields compute_checksum (to_bytes compute_checksum nef) 68 ≡ ok nef.script
  unfolding extract_fields tail_bytes
  extract_fields-reads =
      let all = to_bytes compute_checksum nef in
      let sum = to_le_bytes 4 (compute_checksum (body_bytes nef)) in
      let start : 0 + length (header nef) ≡ 68 = omega (arith, length-header) in
      let source_part = var_bytes nef.source in
      let script_part = var_bytes nef.script in
      let h0 : drop 68 all ≡ source_part ++ (tail_bytes nef ++ sum) =
        ap (λ k. drop k all) (sym start) ∙ drop-advance all (header nef) _ 0 layout in
      let i = 68 + length source_part in
      let h1 : drop i all ≡ 0 ∷ 0 ∷ ((to_le_bytes 2 0 ++ script_part) ++ sum) =
        drop-advance all source_part (tail_bytes nef ++ sum) 68 h0 in
      let byte : get_elem? all i ≡ some 0 = get_elem?-drop all i ∙ ap (λ t. get_elem? t 0) h1 in
      let h2 : drop (i + 1) all ≡ var_int 0 ++ ((to_le_bytes 2 0 ++ script_part) ++ sum) =
        drop-drop all i 1
        ∙ ap (drop 1) h1
        ∙ ap (λ t. t ++ ((to_le_bytes 2 0 ++ script_part) ++ sum)) (sym var_int-zero) in
      let count = read_var_int-reads all _ (i + 1) 0 h2 (omega arith) in
      let j = i + 1 + length (var_int 0) in
      let h3 : drop j all ≡ to_le_bytes 2 0 ++ (script_part ++ sum) =
        drop-advance all (var_int 0) _ (i + 1) h2
        ∙ append_assoc (to_le_bytes 2 0) script_part sum in
      let two = length-to_le_bytes 2 0 in
      let total = ap length h3 in
      let room : j + 2 ≤ length all = omega (
        arith,
        length-drop {0} j all,
        length-append {0} (to_le_bytes 2 0) (script_part ++ sum),
        two,
      ) in
      let reserve : slice all j 2 ≡ to_le_bytes 2 0 =
        ap (λ k. take k (drop j all)) (sym two) ∙ take-read all (to_le_bytes 2 0) _ j h3 in
      let zero2 : from_le_bytes (slice all j 2) ≡ 0 =
        ap from_le_bytes reserve ∙ from-to_le_bytes 2 0 (omega arith) in
      let h4 : drop (j + 2) all ≡ script_part ++ sum =
        ap (λ k. drop (j + k) all) (sym two) ∙ drop-advance all (to_le_bytes 2 0) _ j h3 in
      rw (read_var_bytes-reads all nef.source _ 68 h0 addressable) (
        rw byte (
          rw count (
            rw (le→leb (j + 2) (length all) room) (
              rw zero2 (
                extract_tail-reads compute_checksum (body_bytes nef) nef.script all
                  (unfold to_bytes in refl) small addressable (j + 2) h4)))))

  -- The script of an encoded file without method tokens is read back from its bytes, for any
  -- checksum function with 4-byte values, if it has fewer than 2^64 bytes.
  pub extract_script-to_bytes :
      extract_script compute_checksum (to_bytes compute_checksum nef) ≡ ok nef.script
  unfolding extract_script header
  extract_script-to_bytes =
      let all = to_bytes compute_checksum nef in
      let four = length-to_le_bytes 4 nef.magic in
      let sum = to_le_bytes 4 (compute_checksum (body_bytes nef)) in
      let total = ap length layout in
      let enough : 75 ≤ length all = omega (
        arith,
        length-header,
        length-append {0} (header nef) (var_bytes nef.source ++ (tail_bytes nef ++ sum)),
        length-append {0} (var_bytes nef.source) (tail_bytes nef ++ sum),
        length-append {0} (tail_bytes nef) sum,
        length-to_le_bytes 4 (compute_checksum (body_bytes nef)),
        tail_length nef,
        var_bytes-nonempty nef.source,
      ) in
      let starts : slice all 0 4 ≡ to_le_bytes 4 nef.magic =
        ap (λ k. take k all) (sym four)
        ∙ take-read all (to_le_bytes 4 nef.magic) _ 0
            (layout ∙ append_assoc (to_le_bytes 4 nef.magic) nef.compiler _) in
      let magic : from_le_bytes (slice all 0 4) ≡ nef_magic =
        ap from_le_bytes starts
        ∙ ap (λ m. from_le_bytes (to_le_bytes 4 m)) e.magic
        ∙ from-to_le_bytes 4 nef_magic (omega arith) in
      rw (le→leb 75 (length all) enough) (rw magic extract_fields-reads)
