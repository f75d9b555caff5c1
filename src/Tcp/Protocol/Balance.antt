-- ===== src/Tcp/Protocol/Balance.antt =====
-- The balance between what the two sides of a socket believe and what is in flight.
use gloo.Prelude.{
  ℕ, ◌+◌, ◌<◌, ◌≡◌, Bool, ◌∙◌, refl, sym, subst, subst₂, ap, List, [], ◌∷◌, ◌++◌, arith, Option,
  some, queue_at, List-cases, inl, inr,
}
use gloo.Tcp.RecvAny.{UnboundBufferOp}
use gloo.Transport.Tally.View.{queue, count}
use gloo.Tcp.Op.{Op, Opcode}
use gloo.Tcp.Endpoint.{Endpoint, take_local_recv}
use gloo.Tcp.Endpoint.Counts.{
  messages, messages-append, is_data, is_send_ready, is_recv_ready, is_bound, data_in,
  send_ready_in, recv_ready_in, bound_in, remote_sends, remote_recvs, expected_sends, local_sends,
  local_recvs, Balances, Lawful, IsValid,
}
use gloo.Tcp.Endpoint.Sending.{post_send-Lawful, post_recv-Lawful, try_recv-Lawful}
use gloo.Tcp.Endpoint.Receiving.{handle_send-Lawful, handle_recv-Lawful, take_local_recv-Lawful}
use gloo.Tcp.Protocol.{
  Act, sends, recvs, tries, waits, Take, told_send, told_recv, payload, System, Step, left_acts,
  right_acts, left_takes, right_takes, connected, Reach, start, later,
}

-- The data that goes from `a` to `b` at one slot, `there` being the stream from `a` to `b` and
-- `back` the other one.
pub record IsBalanced (a b : Endpoint) (there back : List Op) (slot : ℕ) : Type 0 where
  -- Each posted receive is announced, known to the sender, or being served.
  pub receives :
      local_recvs b slot ≡ recv_ready_in slot back + remote_recvs a slot + data_in slot there
  -- Sends and receives differ by what the receiver has been told, or still expects to be told.
  pub notified :
      remote_sends b slot + send_ready_in slot there + local_recvs b slot
      ≡ local_sends a slot + data_in slot there + expected_sends b slot
  -- No send is queued while a receive for it is known.
  pub matched : 0 < local_sends a slot → remote_recvs a slot ≡ 0
  pub unbound : bound_in slot there ≡ 0

pub record Inv (s : System) : Type 0 where
  pub left_valid : IsValid s.left
  pub right_valid : IsValid s.right
  pub rightward : (slot : ℕ) → IsBalanced s.left s.right s.to_right s.to_left slot
  pub leftward : (slot : ℕ) → IsBalanced s.right s.left s.to_left s.to_right slot

counted :
    (kind : Opcode → Bool) (slot : ℕ) {all : List Op} (taken rest : List Op)
    → all ≡ taken ++ rest
    → messages kind slot all ≡ messages kind slot taken + messages kind slot rest
counted kind slot taken rest e = ap (messages kind slot) e ∙ messages-append kind slot taken rest

module _ {a a' b : Endpoint} {there back taken sent : List Op} (slot : ℕ)
    (law : Balances a a' taken sent slot) where
  -- A handler on the sending side.
  sender_moves :
      (rest : List Op)
      → back ≡ taken ++ rest
      → IsBalanced a b there back slot
      → IsBalanced a' b (there ++ sent) rest slot
  sender_moves rest e v = omega (
    arith,
    law,
    v,
    counted is_recv_ready slot taken rest e,
    messages-append is_send_ready slot there sent,
    messages-append is_data slot there sent,
    messages-append is_bound slot there sent,
  )

  -- A handler on the receiving side.
  receiver_moves :
      (rest : List Op)
      → back ≡ taken ++ rest
      → IsBalanced b a back there slot
      → IsBalanced b a' rest (there ++ sent) slot
  receiver_moves rest e v = omega (
    arith,
    law,
    v,
    counted is_send_ready slot taken rest e,
    counted is_data slot taken rest e,
    counted is_bound slot taken rest e,
    messages-append is_recv_ready slot there sent,
  )

Act-Lawful : {e e' : Endpoint} {sent : List Op} → IsValid e → Act e e' sent → Lawful e e' [] sent
Act-Lawful {e} v (sends slot u h) = subst (λ r. Lawful e r.0 [] r.1) h (post_send-Lawful e slot u v)
Act-Lawful {e} v (recvs slot u h) = subst (λ r. Lawful e r.0 [] r.1) h (post_recv-Lawful e slot u v)
Act-Lawful {e} v (tries slot u h k) =
    subst₂ (λ x y. Lawful e x [] y) h k (try_recv-Lawful e slot u v)
Act-Lawful {e} v (waits slot r w h k n) =
    subst₂ (λ x y. Lawful e x [] y) (sym k) (sym n)
      (record {
        valid = record { tallies = v.tallies; sends = v.sends; recvs = v.recvs };
        peer = refl;
        balances = λ s. unfold messages in omega arith;
      })

posted_of_taken :
    (e : Endpoint) (slot : ℕ) {r : UnboundBufferOp × Endpoint}
    → take_local_recv e slot ≡ some r
    → 0 < local_recvs e slot
unfolding take_local_recv
posted_of_taken e slot h = elim (List-cases (queue_at e.local_pending_recv slot)) [
  | inl nothing ↦ ground arith
  | inr (u, rest, front) ↦ rw front (omega arith)
]

some_path : {A : Type 0} {a b : A} {o : Option A} → o ≡ some a → o ≡ some b → a ≡ b
some_path p q = cc

pub Take-Lawful :
    {e e' : Endpoint} {op : Op} {sent : List Op}
    → IsValid e
    → Take e e' op sent
    → Lawful e e' (op ∷ []) sent
Take-Lawful {e} {op} v (told_send kind h) =
    subst (λ r. Lawful e r.0 (op ∷ []) r.1) h (handle_send-Lawful e op v kind)
Take-Lawful {e} {op} v (told_recv kind h) =
    let (r, k, law) = handle_recv-Lawful e op v kind in
    subst (λ r. Lawful e r.0 (op ∷ []) r.1) (some_path k h) law
Take-Lawful {e} {op} v (payload u kind h n fits) =
    let (r, k, law) = take_local_recv-Lawful e op v kind (posted_of_taken e op.preamble.slot h) in
    subst₂ (λ x y. Lawful e x (op ∷ []) y) (ap (λ r. r.1) (some_path k h)) (sym n) law

left_moves :
    {s : System} {e : Endpoint} {taken sent : List Op} (rest : List Op)
    → Inv s
    → s.to_left ≡ taken ++ rest
    → Lawful s.left e taken sent
    → Inv (record s { left = e; to_left = rest; to_right = s.to_right ++ sent })
left_moves rest inv h law = record {
  left_valid = law.valid;
  right_valid = inv.right_valid;
  rightward = λ slot. sender_moves slot (law.balances slot) rest h (inv.rightward slot);
  leftward = λ slot. receiver_moves slot (law.balances slot) rest h (inv.leftward slot);
}

right_moves :
    {s : System} {e : Endpoint} {taken sent : List Op} (rest : List Op)
    → Inv s
    → s.to_right ≡ taken ++ rest
    → Lawful s.right e taken sent
    → Inv (record s { right = e; to_right = rest; to_left = s.to_left ++ sent })
right_moves rest inv h law = record {
  left_valid = inv.left_valid;
  right_valid = law.valid;
  rightward = λ slot. receiver_moves slot (law.balances slot) rest h (inv.rightward slot);
  leftward = λ slot. sender_moves slot (law.balances slot) rest h (inv.leftward slot);
}

-- Whatever the users do and whatever arrives, the balance of every slot is kept.
pub Step-Inv : {s t : System} → Step s t → Inv s → Inv t
Step-Inv {s} (left_acts a e) inv =
    subst Inv (sym e) (left_moves s.to_left inv refl (Act-Lawful inv.left_valid a))
Step-Inv {s} (right_acts a e) inv =
    subst Inv (sym e) (right_moves s.to_right inv refl (Act-Lawful inv.right_valid a))
Step-Inv (left_takes op rest h k e) inv =
    subst Inv (sym e) (left_moves rest inv h (Take-Lawful inv.left_valid k))
Step-Inv (right_takes op rest h k e) inv =
    subst Inv (sym e) (right_moves rest inv h (Take-Lawful inv.right_valid k))

connected-Inv : (l r : ℕ) → Inv (connected l r)
unfolding queue count queue_at messages
connected-Inv l r = record {
  left_valid = record { tallies = record { pending = tt; expected = tt }; sends = tt; recvs = tt };
  right_valid = record { tallies = record { pending = tt; expected = tt }; sends = tt; recvs = tt };
  rightward = λ slot. omega arith;
  leftward = λ slot. omega arith;
}

-- In every reachable state both endpoints are valid, and for every slot and each direction the
-- operations of the two sides and the messages between them balance.
pub Reach-Inv : {l r : ℕ} {s : System} → Reach l r s → Inv s
Reach-Inv {l} {r} start = connected-Inv l r
Reach-Inv (later reach step) = Step-Inv step (Reach-Inv reach)
