-- ===== src/Collective/Allgather/Gathers.antt =====
-- The ring of `allgather` serves every byte of the output.
use gloo.Prelude.{
  ℕ, suc, ◌≡◌, sym, ap, ◌∙◌, ◌+◌, ◌-◌, ◌*◌, ◌/◌, ◌%◌, ◌^◌, ◌≤◌, ◌<◌, some, inside, block_of,
  place_of, arith,
}
use gloo.Collective.{Context, copied, memcpy}
use gloo.Collective.Ring.{World, Reach, Done, begin, recv_rank}
use gloo.Collective.Ring.Waits.{recv_rank_lt}
use gloo.Collective.Ring.Invariant.{Serves, Sound, begin-Sound}
use gloo.Collective.Ring.Lands.{reach-Sound}
use gloo.Collective.Ring.Distance.{
  distance, distance_iff, distance-zero, distance-before, segment-recv_rank,
}
use gloo.Collective.Allgather.{
  chunk_size, chunk_offset, segment_offset, allgather_round, allgather_plan, primed,
  AllgatherOptions,
}
use gloo.Collective.Allgather.Turns.{
  chunk_index, in_chunk, chunk_only, due, due-zero, due-suc, due_at, due_le, due-recv_rank,
  segment_offset-wrapped,
}
use gloo.Collective.Ring.Progress.{completes}
use native.Mathlib.Nat.{mul-div_cancel_left, mod-lt, div-add-mod', div-lt_iff_lt-mul}

module _ (n b : ℕ) (hn : 0 < n) (hb : 0 < b) (small : n * b < 2 ^ 63) where
  -- The regions of an iteration, with the segments counted from the rank.
  recv_offset-segment :
      (r i : ℕ)
      → r < n
      → i < (n - 1) * 2
      → (allgather_round n (n * b) r i).recv_offset
        ≡ (n + r - suc (i / 2)) % n * b + chunk_offset b (i % 2)
  unfolding allgather_round
  recv_offset-segment r i hr hi =
      ap (λ t. segment_offset t (n * b) (n + r - i / 2 - 1) (i % 2)) (mul-div_cancel_left b hn)
      ∙ segment_offset-wrapped n b (n + r - i / 2 - 1) (i % 2) hb small (omega arith)
      ∙ ap (λ q. q % n * b + chunk_offset b (i % 2)) (same_segment)
    where
      same_segment : n + r - i / 2 - 1 ≡ n + r - suc (i / 2)
      same_segment = omega arith

  send_offset-segment :
      (r i : ℕ)
      → r < n
      → i < (n - 1) * 2
      → (allgather_round n (n * b) r i).send_offset
        ≡ (n + r - i / 2) % n * b + chunk_offset b (i % 2)
  unfolding allgather_round
  send_offset-segment r i hr hi =
      ap (λ t. segment_offset t (n * b) (n + r - i / 2) (i % 2)) (mul-div_cancel_left b hn)
      ∙ segment_offset-wrapped n b (n + r - i / 2) (i % 2) hb small (omega arith)

  recv_size-chunk : (r i : ℕ) → (allgather_round n (n * b) r i).recv_size ≡ chunk_size b (i % 2)
  unfolding allgather_round
  recv_size-chunk r i = ap (λ t. chunk_size t (i % 2)) (mul-div_cancel_left b hn)

  send_size-chunk : (r i : ℕ) → (allgather_round n (n * b) r i).send_size ≡ chunk_size b (i % 2)
  unfolding allgather_round
  send_size-chunk r i = ap (λ t. chunk_size t (i % 2)) (mul-div_cancel_left b hn)

  received :
      (r i a : ℕ)
      → r < n
      → i < (n - 1) * 2
      → (allgather_round n (n * b) r i).recv_offset ≤ a
      → a < (allgather_round n (n * b) r i).recv_offset + (allgather_round n (n * b) r i).recv_size
      → due n b r a ≡ suc i
  received r i a hr hi lo up =
      let segment = (n + r - suc (i / 2)) % n in
      let x = a - segment * b in
      let (hx, hc) =
        chunk_only b x (i % 2) (omega arith) (omega (arith, recv_offset-segment r i hr hi))
          (omega (arith, recv_offset-segment r i hr hi, recv_size-chunk r i)) in
      let split : a ≡ segment * b + x = omega (arith, recv_offset-segment r i hr hi) in
      due_at n b r a i
        (ap (distance n r) (ap (λ t. t / b) split ∙ block_of segment b x hx)
          ∙ (distance-before n r (suc (i / 2)) hr (omega arith)).1)
        (ap (chunk_index b) (ap (λ t. t % b) split ∙ place_of segment b x hx) ∙ hc)

  in_region :
      (r i a : ℕ)
      → r < n
      → i < (n - 1) * 2
      → a < n * b
      → due n b r a ≡ suc i
      → ((allgather_round n (n * b) r i).recv_offset ≤ a)
        × (a
            < (allgather_round n (n * b) r i).recv_offset
              + (allgather_round n (n * b) r i).recv_size)
  in_region r i a hr hi ha e =
      let (d, c) = due-suc n b r a i e in
      let (lo, up) = in_chunk b (a % b) (i % 2) (mod-lt a hb) c in
      let at =
        distance_iff n r (a / b) (suc (i / 2)) hr ((div-lt_iff_lt-mul hb).1 ha) (omega arith) d in
      let offset = recv_offset-segment r i hr hi ∙ ap (λ s. s * b + chunk_offset b (i % 2)) at in
      (
        omega (arith, offset, div-add-mod' a b),
        omega (arith, offset, div-add-mod' a b, recv_size-chunk r i),
      )

  allgather-Serves : Serves (allgather_plan n (n * b)) (n * b) (due n b)
  unfolding allgather_plan
  allgather-Serves = record {
    within = received;
    reaches = in_region;
    matches = λ r i hr hi.
        send_offset-segment (recv_rank n r) i (recv_rank_lt n r hr) hi
        ∙ ap (λ s. s * b + chunk_offset b (i % 2)) (segment-recv_rank n r (i / 2) hr (omega arith))
        ∙ sym (recv_offset-segment r i hr hi);
    sizes = λ r i hr hi. send_size-chunk (recv_rank n r) i ∙ sym (recv_size-chunk r i);
    earlier = λ r i a hr hi ha e. due-recv_rank n b r a i hr ((div-lt_iff_lt-mul hb).1 ha) e;
  }

  -- A rank starts with its own block, and ends with every rank's.
  module _ {ℓ} {A : Type ℓ} (m : ℕ → ℕ → A) where
    start-Sound : Sound (allgather_plan n (n * b)) (n * b) (due n b) (λ a. m (a / b) a) (begin m)
    unfolding allgather_plan
    start-Sound =
        begin-Sound (allgather_plan n (n * b)) (n * b) (due n b) (λ a. m (a / b) a) m
          (λ r a hr ha e.
            ap (λ s. m s a)
              (sym
                (distance-zero n r (a / b) hr ((div-lt_iff_lt-mul hb).1 ha) (due-zero n b r a e))))

    pub ring-gathers :
        {w : World A}
        → Reach (allgather_plan n (n * b)) (begin m) w
        → Done (allgather_plan n (n * b)) w
        → (r a : ℕ) → r < n
        → a < n * b
        → w.memory r a ≡ m (a / b) a
    unfolding Done allgather_plan
    ring-gathers {w} reach done r a hr ha =
        (reach-Sound (allgather_plan n (n * b)) (n * b) (due n b) (λ a. m (a / b) a)
            allgather-Serves start-Sound reach).holds
          r a hr ha (omega (arith, due_le n b r a hr ((div-lt_iff_lt-mul hb).1 ha), (done r hr).1))

  module _ {ℓ} {A : Type ℓ} (at : ℕ → Context) (o : AllgatherOptions)
      (input output : ℕ → ℕ → A) where
    -- Let `n` ranks run the ring of allgather on outputs of `n * b` bytes, fewer than 2 ^ 63, each
    -- primed with an input of `b` bytes, in any order of iterations and arrivals. When all have
    -- finished, the byte `a` of every rank's output is byte `a % b` of the input of rank `a / b`.
    pub allgather-gathers :
        ((r : ℕ) → r < n → (at r).rank ≡ r)
        → o.in_size ≡ some b
        → {w : World A}
        → Reach
            (allgather_plan n (n * b))
            (begin (λ r. copied (primed (at r) o) (input r) (output r)))
            w
        → Done (allgather_plan n (n * b)) w
        → (r a : ℕ) → r < n
        → a < n * b
        → w.memory r a ≡ input (a / b) (a % b)
    unfolding primed copied memcpy
    allgather-gathers ranks e {w} reach done r a hr ha =
        ring-gathers (λ s. copied (primed (at s) o) (input s) (output s)) reach done r a hr ha ∙ own
      where
        own :
            copied (primed (at (a / b)) o) (input (a / b)) (output (a / b)) a
            ≡ input (a / b) (a % b)
        own =
            rw (e, ranks (a / b) ((div-lt_iff_lt-mul hb).1 ha))
              (rw
                (inside (a / b * b) a (a / b * b + b) (omega (arith, div-add-mod' a b))
                  (omega (arith, div-add-mod' a b, mod-lt a hb)))
                (ap (input (a / b)) (omega (arith, div-add-mod' a b))))

    -- From every world that `n` ranks reach in the ring of allgather, on outputs of `n * b` bytes,
    -- fewer than 2 ^ 63, each primed with the rank's input, the ranks can go on to one in which
    -- all have finished: the waits of the loop never block for good.
    pub allgather-completes :
        {w : World A}
        → Reach
            (allgather_plan n (n * b))
            (begin (λ r. copied (primed (at r) o) (input r) (output r)))
            w
        → (v : World A) × (Reach (allgather_plan n (n * b)) w v × Done (allgather_plan n (n * b)) v)
    unfolding allgather_plan
    allgather-completes {w} reach =
        completes (allgather_plan n (n * b)) (n * b) (due n b) _ allgather-Serves hn (omega arith) w
          w
          (reach-Sound (allgather_plan n (n * b)) (n * b) (due n b) _ allgather-Serves
            (start-Sound (λ r. copied (primed (at r) o) (input r) (output r))) reach)
          Reach.starts
