-- ===== src/Peephole/Loop.antt =====
-- The loops of the passes end: an edit makes the code shorter, and the index grows otherwise.
use neo_lang.Prelude.{
  ℕ, zero, suc, ◌+◌, ◌-◌, ◌≤◌, ◌<◌, ◌≡◌, refl, Bool, true, false, Option, some, leb, arith, length,
  inl, inr, Bool-cases, Option-cases, leb→le,
}
use neo_lang.Peephole.Passes.{Code, scan, run_pass}

-- What an edit keeps, and that it makes the code shorter.
pub record Shrinks (P : Code → Type 0) (w : ℕ) (edit : Code → ℕ → Option Code) : Type 0 where
  pub keeps :
      (c : Code) (index : ℕ) (c' : Code)
      → P c
      → index + w ≤ length c.inst
      → edit c index ≡ some c'
      → P c'
  pub shortens :
      (c : Code) (index : ℕ) (c' : Code)
      → index + w ≤ length c.inst
      → edit c index ≡ some c'
      → length c'.inst < length c.inst

module _ (P : Code → Type 0) (w : ℕ) (edit : Code → ℕ → Option Code) (s : Shrinks P w edit) where
  scan_ends :
      (fuel : ℕ) (c : Code) (index : ℕ) (changed : Bool)
      → 0 < w
      → P c
      → length c.inst - index < fuel
      → (r : Code × Bool) × (scan w edit fuel c index changed ≡ some r) × P r.0
  unfolding scan
  scan_ends zero c index changed pos p h = absurd (omega arith)
  scan_ends (suc fuel) c index changed pos p h =
      elim (Bool-cases (leb (index + w) (length c.inst))) [
        | inr out ↦ ((c, changed), rw (out, scan) refl, p)
        | inl inside ↦
            let room = leb→le (index + w) (length c.inst) inside in
            elim (Option-cases (edit c index)) [
              | inl e ↦
                  let (r, same, q) = scan_ends fuel c (index + 1) changed pos p (omega arith) in
                  (r, rw (inside, e, scan) same, q)
              | inr (c', e) ↦
                  let less = s.shortens c index c' room e in
                  let (r, same, q) =
                    scan_ends fuel c' index true pos (s.keeps c index c' p room e) (omega arith) in
                  (r, rw (inside, e, scan) same, q)
            ]
      ]

  -- A pass ends on every code, and keeps what its edits keep.
  pub run_pass_ends :
      (c : Code) → 0 < w → P c → (r : Code × Bool) × (run_pass w edit c ≡ some r) × P r.0
  unfolding run_pass
  run_pass_ends c pos p = scan_ends (suc (length c.inst)) c 0 false pos p (omega arith)
