-- ===== src/Nef/VarInt.antt =====
-- Reading variable-length integers and byte arrays back.
use neo_lang.Prelude.{
  gt→leb, ℕ, ◌+◌, ◌^◌, ◌≤◌, ◌<◌, ◌≡◌, refl, ap, ◌∙◌, sym, true, false, List, [], ◌∷◌, ◌++◌, leb,
  ltb, arith, length, get_elem?, take, drop, ok, inl, inr, some, Bool-cases, ge→ltb, leb→le,
  length-append, length-drop, drop-append, take-append, drop-drop, get_elem?-drop, append_assoc,
}
use neo_lang.Prelude.Bytes.{to_le_bytes, from_le_bytes, length-to_le_bytes, from-to_le_bytes}
use neo_lang.Nef.{
  NefError, write_var_int, write_var_bytes, slice, read_wide, read_var_int, read_var_bytes,
}

-- The bytes that `write_var_int` appends.
unfoldable pub var_int : ℕ → List ℕ
var_int value = write_var_int [] value

pub write_var_int-append :
    (out : List ℕ) (value : ℕ) → write_var_int out value ≡ out ++ var_int value
unfolding write_var_int var_int
write_var_int-append out value = elim (Bool-cases (ltb value 0xFD)) [
  | inl e ↦ rw e refl
  | inr e ↦ rw e (elim (Bool-cases (leb value 0xFFFF)) [
    | inl u ↦ rw u refl
    | inr u ↦
        rw u (elim (Bool-cases (leb value 0xFFFF_FFFF)) [ inl v ↦ rw v refl | inr v ↦ rw v refl ])
  ])
]

read_wide-reads :
    (bytes : List ℕ) (index n value fb : ℕ) (rest : List ℕ) (e : NefError)
    → drop index bytes ≡ fb ∷ (to_le_bytes n value ++ rest)
    → value < 256 ^ n
    → read_wide bytes index n e ≡ ok (value, index + (1 + n))
unfolding read_wide
read_wide-reads bytes index n value fb rest e h small =
    let total = ap length h in
    let inside : index + (1 + n) ≤ length bytes = omega (
      arith,
      length-drop {0} index bytes,
      length-append {0} (to_le_bytes n value) rest,
      length-to_le_bytes n value,
    ) in
    let after : drop (index + 1) bytes ≡ to_le_bytes n value ++ rest =
      drop-drop bytes index 1 ∙ ap (drop 1) h in
    let cut : slice bytes (index + 1) n ≡ to_le_bytes n value =
      ap (take n) after
      ∙ ap (λ k. take k (to_le_bytes n value ++ rest)) (sym (length-to_le_bytes n value))
      ∙ take-append (to_le_bytes n value) rest in
    rw (ge→ltb (length bytes) (index + (1 + n)) inside)
      (ap (λ v. ok (v, index + (1 + n))) (ap from_le_bytes cut ∙ from-to_le_bytes n value small))

-- The four forms of an encoded integer.
var_int-byte : (value : ℕ) → ltb value 0xFD ≡ true → var_int value ≡ value ∷ []
unfolding var_int write_var_int
var_int-byte value e = rw e refl

module _ (value : ℕ) (e : ltb value 0xFD ≡ false) where
  var_int-u16 : leb value 0xFFFF ≡ true → var_int value ≡ 0xFD ∷ to_le_bytes 2 value
  unfolding var_int write_var_int
  var_int-u16 u = rw (e, u) refl

  var_int-u32 :
      leb value 0xFFFF ≡ false
      → leb value 0xFFFF_FFFF ≡ true
      → var_int value ≡ 0xFE ∷ to_le_bytes 4 value
  unfolding var_int write_var_int
  var_int-u32 u v = rw (e, u, v) refl

  var_int-u64 :
      leb value 0xFFFF ≡ false
      → leb value 0xFFFF_FFFF ≡ false
      → var_int value ≡ 0xFF ∷ to_le_bytes 8 value
  unfolding var_int write_var_int
  var_int-u64 u v = rw (e, u, v) refl

var_int-nonempty : (value : ℕ) → 0 < length (var_int value)
unfolding var_int write_var_int
var_int-nonempty value = ground arith

module _ (bytes rest : List ℕ) (index value : ℕ)
    (h : drop index bytes ≡ var_int value ++ rest) where
  first_byte : (b : ℕ) (bs : List ℕ) → var_int value ≡ b ∷ bs → get_elem? bytes index ≡ some b
  first_byte b bs f =
      get_elem?-drop bytes index ∙ ap (λ t. get_elem? t 0) (h ∙ ap (λ t. t ++ rest) f)

  wide :
      (fb n : ℕ) (e : NefError)
      → var_int value ≡ fb ∷ to_le_bytes n value
      → value < 256 ^ n
      → read_wide bytes index n e ≡ ok (value, index + length (var_int value))
  wide fb n e f small =
      let size : 1 + n ≡ length (fb ∷ to_le_bytes n value) =
        omega (arith, length-to_le_bytes n value) in
      read_wide-reads bytes index n value fb rest e (h ∙ ap (λ t. t ++ rest) f) small
      ∙ ap (λ k. ok (value, index + k)) (size ∙ ap length (sym f))

  -- An integer below 2^64 that stands at `index`, whatever follows it, is read back, and the
  -- returned index is behind it.
  pub read_var_int-reads :
      value < 2 ^ 64 → read_var_int bytes index ≡ ok (value, index + length (var_int value))
  unfolding read_var_int
  read_var_int-reads small = elim (Bool-cases (ltb value 0xFD)) [
    | inl e ↦ let f = var_int-byte value e in rw (first_byte value [] f) (rw e (rw f refl))
    | inr e ↦ elim (Bool-cases (leb value 0xFFFF)) [
      | inl u ↦
          let f = var_int-u16 value e u in
          rw (first_byte 0xFD _ f) (wide 0xFD 2 _ f (omega (arith, leb→le value 0xFFFF u)))
      | inr u ↦ elim (Bool-cases (leb value 0xFFFF_FFFF)) [
        | inl v ↦
            let f = var_int-u32 value e u v in
            rw (first_byte 0xFE _ f) (wide 0xFE 4 _ f (omega (arith, leb→le value 0xFFFF_FFFF v)))
        | inr v ↦
            let f = var_int-u64 value e u v in rw (first_byte 0xFF _ f) (wide 0xFF 8 _ f small)
      ]
    ]
  ]

pub var_int-zero : var_int 0 ≡ 0 ∷ []
unfolding var_int write_var_int
var_int-zero = refl

-- The bytes that `write_var_bytes` appends.
unfoldable pub var_bytes : List ℕ → List ℕ
var_bytes payload = var_int (length payload) ++ payload

pub var_bytes-nonempty : (payload : List ℕ) → 0 < length (var_bytes payload)
unfolding var_bytes
var_bytes-nonempty payload =
    omega (
      arith,
      length-append {0} (var_int (length payload)) payload,
      var_int-nonempty (length payload),
    )

pub write_var_bytes-append :
    (out payload : List ℕ) → write_var_bytes out payload ≡ out ++ var_bytes payload
unfolding write_var_bytes var_bytes
write_var_bytes-append out payload =
    rw (write_var_int-append out (length payload))
      (append_assoc out (var_int (length payload)) payload)

-- A byte array that stands at `index` of fewer than 2^64 bytes, whatever follows it, is read back.
pub read_var_bytes-reads :
    (bytes payload rest : List ℕ) (index : ℕ)
    → drop index bytes ≡ var_bytes payload ++ rest
    → length bytes < 2 ^ 64
    → read_var_bytes bytes index ≡ ok (payload, index + length (var_bytes payload))
unfolding read_var_bytes var_bytes
read_var_bytes-reads bytes payload rest index h small =
    let prefix = var_int (length payload) in
    let h' : drop index bytes ≡ prefix ++ (payload ++ rest) =
      h ∙ append_assoc prefix payload rest in
    let total = ap length h' in
    let inside : index + length prefix + length payload ≤ length bytes = omega (
      arith,
      length-drop {0} index bytes,
      length-append {0} prefix (payload ++ rest),
      length-append {0} payload rest,
      var_int-nonempty (length payload),
    ) in
    let read = read_var_int-reads bytes (payload ++ rest) index (length payload) h' (omega arith) in
    let after : drop (index + length prefix) bytes ≡ payload ++ rest =
      drop-drop bytes index (length prefix)
      ∙ ap (drop (length prefix)) h'
      ∙ drop-append prefix (payload ++ rest) in
    let cut : slice bytes (index + length prefix) (length payload) ≡ payload =
      ap (take (length payload)) after ∙ take-append payload rest in
    let size : index + length prefix + length payload ≡ index + length (prefix ++ payload) =
      omega (arith, length-append {0} prefix payload) in
    let near = gt→leb (2 ^ 64) (index + length prefix + length payload) (omega arith) in
    rw read (
      rw near (
        rw (ge→ltb (length bytes) (index + length prefix + length payload) inside)
          (rw (cut, size) refl)))
