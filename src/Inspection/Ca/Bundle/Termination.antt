-- ===== src/Inspection/Ca/Bundle/Termination.antt =====
-- The loops of Bundle end: each block that pem.Decode takes shortens what remains.
use egress_gateway.Prelude.{
  ℕ, zero, suc, ◌+◌, ◌≤◌, ◌<◌, ◌≡◌, ◌≢◌, ap, inl, inr, [], length, some, Option-cases, arith,
}
use egress_gateway.Prelude.Results.{err, >>=-err, refuse_if-err, or_fail-err}
use egress_gateway.Inspection.Crypto.{Bytes}
use egress_gateway.Inspection.Ca.Bundle.{
  Block, Pem, out_of_fuel, from_begin, Counted, read_block, read_from, read_blocks, read_input,
  bundle,
}
use egress_gateway.Inspection.Ca.Bundle.Laws.{from_begin-le, read_block-IsEntry}

module _ (pem : Pem) (trims : (s : Bytes) → length (pem.trim s) ≤ length s)
    (shortens : (s : Bytes) (b : Block)
      → (pem.decode s).0 ≡ some b
      → length (pem.decode s).1 < length s) where
  read_block-ends : (start buffer : Bytes) → read_block pem start buffer ≢ err out_of_fuel
  unfolding read_block
  read_block-ends start buffer h = elim (refuse_if-err _ _ _ h) [
    | inl e ↦ cc
    | inr h₁ ↦ elim (>>=-err _ _ h₁) [
      | inl e ↦ cc (or_fail-err _ _ e)
      | inr (block, e, h₂) ↦ elim (refuse_if-err _ _ _ h₂) [
        | inl e ↦ cc
        | inr h₃ ↦ elim (refuse_if-err _ _ _ h₃) [
          | inl e ↦ cc
          | inr h₄ ↦ elim (>>=-err _ _ h₄) [ inl e ↦ cc (or_fail-err _ _ e) | inr (c, e, h₅) ↦ cc ]
        ]
      ]
    ]
  ]

  read_blocks-ends :
      (fuel : ℕ) (remaining : Bytes) (p : Counted)
      → length remaining < fuel
      → read_blocks pem fuel remaining p ≢ err out_of_fuel
  unfolding read_blocks read_from
  read_blocks-ends zero remaining p enough h = omega arith
  read_blocks-ends (suc fuel) remaining p enough h = elim (Option-cases (from_begin remaining)) [
    | inl e ↦ cc (rw e at h)
    | inr (start, e) ↦ elim (>>=-err _ _ (rw e at h)) [
      | inl failed ↦ read_block-ends start p.1 failed
      | inr (r, reads, rest) ↦
          let (entry, is_entry, grown, decoded, left, certified) =
            read_block-IsEntry pem start p.1 reads in
          let shorter : length r.0 < fuel = omega (
            arith,
            from_begin-le remaining e,
            shortens start entry.0 decoded,
            trims (pem.decode start).1,
            enough,
            ap (λ (r : Bytes). length r) left,
          ) in
          read_blocks-ends fuel r.0 (p.0 + 1, r.1) shorter rest
    ]
  ]

  read_input-ends :
      (fuel : ℕ) (input buffer : Bytes)
      → length input < fuel
      → read_input pem fuel input buffer ≢ err out_of_fuel
  unfolding read_input
  read_input-ends fuel input buffer enough h = elim (>>=-err _ _ h) [
    | inl e ↦
        read_blocks-ends fuel (pem.trim input) (0, buffer) (omega (arith, trims input, enough)) e
    | inr (p, e, h₁) ↦ elim (refuse_if-err _ _ _ h₁) [ inl e ↦ cc | inr h₂ ↦ cc ]
  ]

  -- If bytes.TrimSpace never lengthens its input and what pem.Decode leaves behind a block is shorter
  -- than what it was given, fuel beyond the lengths of both inputs is enough: Bundle ends, with a
  -- bundle or with one of its own errors.
  pub bundle-ends :
      (fuel : ℕ) (base inspection_ca : Bytes)
      → length base < fuel
      → length inspection_ca < fuel
      → bundle pem fuel base inspection_ca ≢ err out_of_fuel
  unfolding bundle
  bundle-ends fuel base inspection_ca enough enough' h = elim (>>=-err _ _ h) [
    | inl e ↦ read_input-ends fuel base [] enough e
    | inr (buffer, e, h₁) ↦ read_input-ends fuel inspection_ca buffer enough' h₁
  ]
