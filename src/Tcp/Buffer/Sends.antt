-- ===== src/Tcp/Buffer/Sends.antt =====
-- What a bound buffer sends lies within it.
use gloo.Prelude.{
  ℕ, ◌+◌, ◌≤◌, ◌<◌, ◌^◌, ◌≡◌, refl, true, false, List, Option, none, some, u64, leb, arith, length,
}
use gloo.Tcp.Op.{Op, Preamble, preamble_size}
use gloo.Tcp.Write.Bytes.{IsSendable}
use gloo.Tcp.Buffer.{increment, Bound, send_op, sent_op}

module _ (preamble_bytes : Preamble → List ℕ) (memory : Option ℕ → List ℕ) where
  -- A send that does not wrap succeeds just when it lies within the buffer, and its operation can
  -- then be transmitted: its message is the struct and the bytes that were asked for.
  pub send_op-IsSendable :
      (b : Bound) (offset len roffset : ℕ)
      → ((p : Preamble) → length (preamble_bytes p) ≡ preamble_size)
      → ((o : Option ℕ) → length (memory o) < 2 ^ 63)
      → length (memory (some b.name)) ≡ b.size
      → offset + len < 2 ^ 63
      → (offset + len ≤ b.size
          → (r : Bound × Op) × (send_op b offset len roffset ≡ some r)
            × IsSendable preamble_bytes memory r.1)
        × (b.size < offset + len → send_op b offset len roffset ≡ none)
  unfolding send_op increment
  send_op-IsSendable b offset len roffset struct small size no_wrap = (
    λ fits.
        (let within : leb (u64 (offset + len)) b.size ≡ true = ground arith in
          let total : u64 (preamble_size + len) ≡ preamble_size + len = omega arith in
          (
            (record b { send_pending = increment b.send_pending }, sent_op b offset len roffset),
            rw within refl,
            record {
              struct = struct _;
              target = (omega (arith, size), total);
              small = omega arith;
              addressable = small;
              written = omega arith;
            },
          )),
    λ beyond.
        (let outside : leb (u64 (offset + len)) b.size ≡ false = ground arith in rw outside refl),
  )
