-- ===== src/Collective/Allreduce/Reduces.antt =====
-- gloo/allreduce.cc: every rank's outputs after `ring`.
use gloo.Prelude.{
  ℕ, suc, ◌≡◌, refl, sym, ap, ◌∙◌, subst, subst₂, some, ◌+◌, ◌-◌, ◌*◌, ◌≤◌, ◌<◌, lt-or_le, inl, inr,
  outside, arith,
}
use gloo.Collective.Ring.Invariant.{set_cases}
use gloo.Collective.Allreduce.{Segments, rounds, loop_body, next_rank, previous_rank}
use gloo.Collective.Allreduce.Local.{Options, Buffers, perform}
use gloo.Collective.Allreduce.Run.{
  Rank, Unblocked, arrival_region, posted_at, posted_receive, posted_send, Place, place_length,
  receive_message, go_on, take_in, pass_by, Advance, Reaches, at_start,
}
use gloo.Collective.Allreduce.Cuts.{Divided, turn, next_rank_lt, segments_rounds}
use gloo.Collective.Allreduce.Parts.{reduction, ready, copied_at, ready_cases, copied_at_cases}
use gloo.Collective.Allreduce.Scattered.{body-Scattered}
use gloo.Collective.Allreduce.Gathers.{body-Gathered}
use gloo.Collective.Allreduce.Invariant.{Good, out_full, turn_bound}
use gloo.Collective.Allreduce.Issues.{scatter-Good, gather-Good}
use gloo.Collective.Allreduce.LandsTmp.{receive_tmp-Good}
use gloo.Collective.Allreduce.LandsOut.{receive_out-Good}
use gloo.Collective.Allreduce.Waits.{
  loop_body_first, loop_body_second, arrival_early, arrival_late, waits_scatter, waits_gather,
}
use gloo.Collective.Allreduce.Places.{
  place, place_early, place_late, place_length-place, send_length, send_length-next, if_any-some,
}
use gloo.Collective.Allreduce.Posted.{receive_posted, send_posted, receive_made, send_made}
use gloo.Collective.{memcpy}
use mathlib.Core.Path.{fun_ext}
use Prim.Native.Nat.{◌∣◌}

receive_message-zero {ℓ} :
    {A : Type ℓ} (x : Place) (m : ℕ → A) (b : Buffers A) → receive_message x 0 m b ≡ b
unfolding receive_message memcpy
receive_message-zero (Place.in_tmp o n) m b =
    ap (λ f. record b { tmp = f })
      (fun_ext (λ y. rw (outside o y (o + 0) (λ c. absurd (omega (arith, c.0, c.1)))) refl))
receive_message-zero (Place.in_out o n) m b =
    ap (λ f. record b { out = f })
      (fun_ext (λ y. rw (outside o y (o + 0) (λ c. absurd (omega (arith, c.0, c.1)))) refl))

module _ {ℓ} {A : Type ℓ} (s : Segments) (div : Divided s) (o : ℕ → Options A)
    (start : ℕ → Buffers A) (a : ℕ) (ha : a < s.total_bytes)
    (same : (r : ℕ) → (o r).element_size ≡ s.element_size)
    (whole : (r : ℕ) → (o r).element_size ∣ a) where
  abbrev Held : (r : ℕ) → Rank A → Type ℓ
  Held r w = Good s o start a r w.issued w.landed w.buffers

  abbrev Sound : (ℕ → Rank A) → Type ℓ
  Sound w = (r : ℕ) → r < s.size → Held r (w r)

  start-Sound : Sound (at_start start)
  unfolding at_start
  start-Sound r hr = record {
    issued_le = omega arith;
    begun = λ k h. absurd (omega arith);
    untouched = λ h. refl;
    copies_untouched = λ h i. refl;
    partial = λ h c. absurd (omega arith);
    full = λ h h'. absurd (omega arith);
    held = λ k e h h'. absurd (omega arith);
    sent_partial = λ h h'. absurd (omega arith);
    sent_full = λ h h'. absurd (omega arith);
    waited = λ h h'. absurd (omega arith);
    copies_full = λ h k lo hi. absurd (omega arith);
  }

  go_on-Held :
      (r there : ℕ) (w : Rank A)
      → r < s.size
      → Held r w
      → w.issued < 2 * (rounds s + 2)
      → Unblocked w.landed there (loop_body s r w.issued)
      → Held r (go_on s (o r) r w)
  unfolding go_on
  go_on-Held r there w hr good ht u = elim (lt-or_le w.issued (rounds s + 2)) [
    | inl h ↦
        subst (λ xs. Good s o start a r (suc w.issued) w.landed (perform (o r) xs w.buffers))
          (sym (loop_body_first s r w.issued h))
          (scatter-Good s o start a r div hr ha w.issued w.landed w.buffers _ good h
            (body-Scattered s div (o r) r a (same r) hr ha (whole r) w.issued h w.buffers)
            (waits_scatter s div r a hr ha w.landed there w.issued h
              (subst (Unblocked w.landed there) (loop_body_first s r w.issued h) u)))
    | inr h ↦
        subst (λ xs. Good s o start a r (suc w.issued) w.landed (perform (o r) xs w.buffers))
          (sym (loop_body_second s r w.issued h))
          (gather-Good s o start a r div hr ha w.issued w.landed w.buffers _ good
            (w.issued - (rounds s + 2)) (omega arith) (omega arith)
            (body-Gathered s div (o r) r a hr ha (w.issued - (rounds s + 2)) (omega arith)
              w.buffers)
            (waits_gather s div r a hr ha w.landed there (w.issued - (rounds s + 2)) (omega arith)
              (subst (Unblocked w.landed there) (loop_body_second s r w.issued h) u)))
  ]

  -- The message that comes in is the whole one, in its region.
  comes_in-Held :
      (r : ℕ) (w next : Rank A)
      → r < s.size
      → Held r w
      → Held (next_rank s.size r) next
      → w.landed < 2 * rounds s
      → posted_at s w.landed < w.issued
      → (0 < (arrival_region s r w.landed).recv_length → posted_at s w.landed < next.issued)
      → Held r (take_in (place s r w.landed) (arrival_region s r w.landed).recv_length next w)
  unfolding take_in receive_message
  comes_in-Held r w next hr good next_good hl hp sent = elim (lt-or_le w.landed (rounds s)) [
    | inl h ↦
        rw (place_early s r w.landed h, arrival_early s r w.landed h)
          (receive_tmp-Good s o start a r div hr ha w.issued w.landed next.issued next.landed
            w.buffers next.buffers good next_good hp h
            (subst (λ x. 0 < x.recv_length → posted_at s w.landed < next.issued)
              (arrival_early s r w.landed h) sent))
    | inr h ↦
        rw (place_late s r w.landed h, arrival_late s r w.landed h)
          (receive_out-Good s o start a r div hr ha w.issued w.landed next.issued next.landed
            w.buffers next.buffers good next_good hp h hl
            (subst (λ x. 0 < x.recv_length → posted_at s w.landed < next.issued)
              (arrival_late s r w.landed h) sent))
  ]

  -- A message lands where its receive was posted.
  take_in-Held :
      (r : ℕ) (to : Place) (length : ℕ) (w next : Rank A)
      → r < s.size
      → Held r w
      → Held (next_rank s.size r) next
      → posted_receive s r w.issued w.landed ≡ some to
      → posted_send s (next_rank s.size r) next.issued w.landed ≡ some length
      → Held r (take_in to length next w)
  take_in-Held r to length w next hr good next_good er es =
      let (hl, hp) = receive_made s r w.landed w.issued to er in
      let hn = send_made s (next_rank s.size r) w.landed next.issued length es in
      let (pos, place_is) =
        if_any-some (place_length (place s r w.landed)) (place s r w.landed) to
          (sym (receive_posted s r w.landed w.issued hl hp) ∙ er) in
      let (_, length_is) =
        if_any-some (send_length s (next_rank s.size r) w.landed) _ length
          (sym (send_posted s (next_rank s.size r) w.landed next.issued hl hn) ∙ es) in
      subst₂ (λ x n. Held r (take_in x n next w)) place_is
        (sym (
            send_length-next s div r w.landed hr hl
              (subst (λ n. 0 < n) (place_length-place s r w.landed) pos))
          ∙ length_is)
        (comes_in-Held r w next hr good next_good hl hp (λ _. hn))

  -- A message of no bytes changes nothing.
  pass-Held :
      (r : ℕ) (w next : Rank A)
      → r < s.size
      → Held r w
      → Held (next_rank s.size r) next
      → w.landed < 2 * rounds s
      → posted_at s w.landed < w.issued
      → (arrival_region s r w.landed).recv_length ≡ 0
      → Held r (pass_by w)
  unfolding pass_by take_in receive_message
  pass-Held r w next hr good next_good hl hp e =
      subst (λ b. Good s o start a r w.issued (suc w.landed) b)
        (ap (λ n. receive_message (place s r w.landed) n (next.buffers.sent w.landed) w.buffers) e
          ∙ receive_message-zero (place s r w.landed) (next.buffers.sent w.landed) w.buffers)
        (comes_in-Held r w next hr good next_good hl hp (λ l. absurd (omega arith)))

  Advance-Sound : {w v : ℕ → Rank A} → Sound w → Advance s o w v → Sound v
  Advance-Sound {w} sound (Advance.issues q hq ht u) r hr =
      set_cases (Held r) w q r (go_on s (o q) q (w q))
        (λ e.
          subst (λ j. Held j (go_on s (o q) q (w q))) (sym e)
            (go_on-Held q (w (previous_rank s.size q)).landed (w q) hq (sound q hq) ht u))
        (λ _. sound r hr)
  Advance-Sound {w} sound (Advance.lands q to length hq er es hf) r hr =
      set_cases (Held r) w q r (take_in to length (w (next_rank s.size q)) (w q))
        (λ e.
          subst (λ j. Held j (take_in to length (w (next_rank s.size q)) (w q))) (sym e)
            (take_in-Held q to length (w q) (w (next_rank s.size q)) hq (sound q hq)
              (sound (next_rank s.size q) (next_rank_lt s div q hq)) er es))
        (λ _. sound r hr)
  Advance-Sound {w} sound (Advance.passes q hq hl hp he) r hr =
      set_cases (Held r) w q r (pass_by (w q))
        (λ e.
          subst (λ j. Held j (pass_by (w q))) (sym e)
            (pass-Held q (w q) (w (next_rank s.size q)) hq (sound q hq)
              (sound (next_rank s.size q) (next_rank_lt s div q hq)) hl hp he))
        (λ _. sound r hr)

  Reaches-Sound : {w : ℕ → Rank A} → Reaches s o (at_start start) w → Sound w
  Reaches-Sound Reaches.starts = start-Sound
  Reaches-Sound (Reaches.continues reach step) = Advance-Sound (Reaches-Sound reach) step

  -- Whatever the order in which ranks go on and messages come in, a rank that has returned from
  -- `ring` has in each of its outputs, at each element (each multiple of the element size below
  -- `totalBytes`), the reduction of the inputs of all ranks: that of the rank of the element's
  -- chunk, reduced with that of the next rank, and so on round the ring. It is the same element at
  -- every rank. The segments are as `Divided` says, and all ranks have the same element size.
  pub allreduce-reduces :
      {w : ℕ → Rank A}
      → Reaches s o (at_start start) w
      → (r : ℕ) → r < s.size
      → (w r).issued ≡ 2 * (rounds s + 2)
      → ((w r).buffers.out a ≡ reduction s o start a)
        × ((k : ℕ) → 1 ≤ k → k < (o r).outputs → (w r).buffers.copies k a ≡ reduction s o start a)
  allreduce-reduces {w} reach r hr done = (
    out_full s o start a r div hr ha good ready_before (λ h. good.waited h (omega arith)),
    good.copies_full copied_before,
  )
    where
      good : Held r (w r)
      good = Reaches-Sound reach r hr

      bound : turn s r a < rounds s + s.per_rank
      bound = turn_bound s o start a r div hr ha

      ready_before : ready s (turn s r a) < (w r).issued
      ready_before = ground (arith, bound, segments_rounds s div, ready_cases s (turn s r a))

      copied_before : copied_at s (turn s r a) < (w r).issued
      copied_before = ground (arith, bound, segments_rounds s div, copied_at_cases s (turn s r a))
