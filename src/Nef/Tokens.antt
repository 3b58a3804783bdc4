-- ===== src/Nef/Tokens.antt =====
-- Method tokens and their registry (neo-compiler/src/target/method_token.rs, nef.rs). A hash map
-- is an association list with the last entry in front.
pub mod Registry
use native.Mathlib.Decide.{ℕ_discrete}
use neo_lang.Prelude.{
  ℕ, ◌+◌, Bool, Option, none, some, List, [], ◌∷◌, ◌++◌, leb, if◌then◌else◌, length, Result, ok,
  err,
}
use neo_lang.Prelude.Bytes.{to_le_bytes}
use neo_lang.Nef.{write_var_bytes}

-- `hash` is 20 bytes and `method` the bytes of the name.
pub record MethodToken : Type 0 where
  pub hash : List ℕ
  pub method : List ℕ
  pub parameters_count : ℕ
  pub has_return_value : Bool
  pub call_flags : ℕ

-- `MethodToken::encode_into`.
unfoldable pub encode_token : List ℕ → MethodToken → List ℕ
encode_token out t =
    write_var_bytes (out ++ t.hash) t.method
    ++ (to_le_bytes 2 t.parameters_count
        ++ ((if t.has_return_value then 1 else 0) ∷ t.call_flags ∷ []))

unfoldable pub MethodToken-discrete : Discrete MethodToken
MethodToken-discrete = hlevel ℕ_discrete

pub data MethodTokenError : Type 0 where
  limit_exceeded : MethodTokenError

pub record MethodTokenRegistry : Type 0 where
  pub tokens : List MethodToken
  pub index : List (MethodToken × ℕ)

abbrev pub empty_registry : MethodTokenRegistry
empty_registry = record { tokens = []; index = [] }

-- `index.get(&token)`.
unfoldable pub find : MethodToken → List (MethodToken × ℕ) → Option ℕ
find t [] = none
find t ((k, i) ∷ m) = elim (MethodToken-discrete k t) [ yes _ ↦ some i | no _ ↦ find t m ]

intern_new : MethodTokenRegistry → MethodToken → Result MethodTokenError (MethodTokenRegistry × ℕ)
intern_new r t =
    if leb (length r.tokens) 0xFFFF
    then ok (
      record { tokens = r.tokens ++ t ∷ []; index = (t, length r.tokens) ∷ r.index },
      length r.tokens,
    )
    else err limit_exceeded

intern_found :
    MethodTokenRegistry → MethodToken → Option ℕ → Result MethodTokenError (MethodTokenRegistry × ℕ)
unfolding intern_new
intern_found r t (some i) = ok (r, i)
intern_found r t none = intern_new r t

unfoldable pub intern :
    MethodTokenRegistry → MethodToken → Result MethodTokenError (MethodTokenRegistry × ℕ)
unfolding intern_found
intern r t = intern_found r t (find t r.index)
