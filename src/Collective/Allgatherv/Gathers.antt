-- ===== src/Collective/Allgatherv/Gathers.antt =====
-- The ring of `allgatherv` serves every byte of the output.
use gloo.Prelude.{
  ℕ, suc, ◌≡◌, refl, sym, ap, ◌∙◌, ◌+◌, ◌-◌, ◌%◌, ◌^◌, ◌≤◌, ◌<◌, List, length, some, inside, lt→ltb,
  arith,
}
use gloo.Collective.{Context, copied, memcpy}
use gloo.Collective.Ring.{World, Reach, Done, begin, recv_rank}
use gloo.Collective.Ring.Waits.{recv_rank_lt}
use gloo.Collective.Ring.Distance.{
  distance, distance_lt, distance_iff, distance-zero, distance-before, distance-recv_rank,
  segment-recv_rank,
}
use gloo.Collective.Ring.Invariant.{Serves, Sound, begin-Sound}
use gloo.Collective.Ring.Lands.{reach-Sound}
use gloo.Collective.Ring.Progress.{completes}
use gloo.Collective.Layout.{lengths, offsets, entry, before, total, owner}
use gloo.Collective.Layout.Owner.{entry-offsets_start, owner_lt, owner_region, owner_unique}
use gloo.Collective.Allgatherv.{allgatherv_round, allgatherv_plan, primed_block, AllgathervOptions}
use native.Mathlib.Nat.{mod-lt}

module _ (counts : List ℕ) (hn : 0 < length counts) (small : total counts < 2 ^ 64) where
  -- A byte is due after as many iterations as its owner is ranks before.
  due : ℕ → ℕ → ℕ
  due r a = distance (length counts) r (owner counts a)

  recv_offset-before :
      (r i : ℕ)
      → r < length counts
      → (allgatherv_round (length counts) counts r i).recv_offset
        ≡ before counts ((length counts + r - suc i) % length counts)
  unfolding allgatherv_round
  recv_offset-before r i hr =
      ap (λ j. entry (offsets 0 counts) (j % length counts)) same_index
      ∙ entry-offsets_start counts ((length counts + r - suc i) % length counts) small
          (mod-lt (length counts + r - suc i) hn)
    where
      same_index : length counts + r - i - 1 ≡ length counts + r - suc i
      same_index = omega arith

  recv_size-entry :
      (r i : ℕ)
      → (allgatherv_round (length counts) counts r i).recv_size
        ≡ entry counts ((length counts + r - suc i) % length counts)
  unfolding allgatherv_round
  recv_size-entry r i = ap (λ j. entry counts (j % length counts)) same_index
    where
      same_index : length counts + r - i - 1 ≡ length counts + r - suc i
      same_index = omega arith

  send_offset-before :
      (r i : ℕ)
      → r < length counts
      → (allgatherv_round (length counts) counts r i).send_offset
        ≡ before counts ((length counts + r - i) % length counts)
  unfolding allgatherv_round
  send_offset-before r i hr =
      entry-offsets_start counts ((length counts + r - i) % length counts) small
        (mod-lt (length counts + r - i) hn)

  send_size-entry :
      (r i : ℕ)
      → (allgatherv_round (length counts) counts r i).send_size
        ≡ entry counts ((length counts + r - i) % length counts)
  unfolding allgatherv_round
  send_size-entry r i = refl

  allgatherv-Serves : Serves (allgatherv_plan (length counts) counts) (total counts) due
  unfolding allgatherv_plan due
  allgatherv-Serves = record {
    within = λ r i a hr hi lo up.
        ap (distance (length counts) r) (
          owner_unique counts ((length counts + r - suc i) % length counts) a
            (mod-lt (length counts + r - suc i) hn) (omega (arith, recv_offset-before r i hr))
            (omega (arith, recv_offset-before r i hr, recv_size-entry r i)))
        ∙ (distance-before (length counts) r (suc i) hr (omega arith)).1;
    reaches = λ r i a hr hi ha e.
        let at =
          distance_iff (length counts) r (owner counts a) (suc i) hr (owner_lt counts a ha)
            (omega arith) e in
        let offset = recv_offset-before r i hr ∙ ap (before counts) at in
        let (lo, up) = owner_region counts a ha in
        (omega (arith, offset), omega (arith, offset, recv_size-entry r i ∙ ap (entry counts) at));
    matches = λ r i hr hi.
        send_offset-before (recv_rank (length counts) r) i (recv_rank_lt (length counts) r hr)
        ∙ ap (before counts) (segment-recv_rank (length counts) r i hr (omega arith))
        ∙ sym (recv_offset-before r i hr);
    sizes = λ r i hr hi.
        send_size-entry (recv_rank (length counts) r) i
        ∙ ap (entry counts) (segment-recv_rank (length counts) r i hr (omega arith))
        ∙ sym (recv_size-entry r i);
    earlier = λ r i a hr hi ha e. omega (
      arith,
      distance-recv_rank (length counts) r (owner counts a) i hr (owner_lt counts a ha) e,
    );
  }

  module _ {ℓ} {A : Type ℓ} (m : ℕ → ℕ → A) where
    start-Sound :
        Sound
          (allgatherv_plan (length counts) counts)
          (total counts)
          due
          (λ a. m (owner counts a) a)
          (begin m)
    unfolding allgatherv_plan due
    start-Sound =
        begin-Sound (allgatherv_plan (length counts) counts) (total counts) due
          (λ a. m (owner counts a) a) m
          (λ r a hr ha e.
            ap (λ s. m s a)
              (sym (distance-zero (length counts) r (owner counts a) hr (owner_lt counts a ha) e)))

    ring-gathers :
        {w : World A}
        → Reach (allgatherv_plan (length counts) counts) (begin m) w
        → Done (allgatherv_plan (length counts) counts) w
        → (r a : ℕ) → r < length counts
        → a < total counts
        → w.memory r a ≡ m (owner counts a) a
    unfolding Done allgatherv_plan due
    ring-gathers {w} reach done r a hr ha =
        (reach-Sound (allgatherv_plan (length counts) counts) (total counts) due
            (λ a. m (owner counts a) a) allgatherv-Serves start-Sound reach).holds
          r a hr ha
          (omega (
            arith,
            distance_lt (length counts) r (owner counts a) hr (owner_lt counts a ha),
            (done r hr).1,
          ))

    pub allgatherv-completes :
        {w : World A}
        → Reach (allgatherv_plan (length counts) counts) (begin m) w
        → (v : World A) × (Reach (allgatherv_plan (length counts) counts) w v
            × Done (allgatherv_plan (length counts) counts) v)
    unfolding allgatherv_plan
    allgatherv-completes {w} reach =
        completes (allgatherv_plan (length counts) counts) (total counts) due _ allgatherv-Serves hn
          (omega arith) w w
          (reach-Sound (allgatherv_plan (length counts) counts) (total counts) due _
            allgatherv-Serves start-Sound reach)
          Reach.starts

  module _ {ℓ} {A : Type ℓ} (at : ℕ → Context) (o : ℕ → AllgathervOptions)
      (input output : ℕ → ℕ → A) where
    -- Let as many ranks as there are counts run the ring of allgatherv, with fewer than 2 ^ 64
    -- bytes in all, each output primed with an input of the rank's count, in any order of
    -- iterations and arrivals. When all have finished, every byte of every rank's output is the
    -- byte of its owner's input at its place in the owner's block.
    pub allgatherv-gathers :
        ((r : ℕ) → r < length counts → (at r).rank ≡ r)
        → ((r : ℕ) → r < length counts → lengths (o r).elements (o r).element_size ≡ counts)
        → ((r : ℕ) → r < length counts → (o r).in_size ≡ some (entry counts r))
        → {w : World A}
        → Reach
            (allgatherv_plan (length counts) counts)
            (begin (λ r. copied (primed_block (at r) (o r)) (input r) (output r)))
            w
        → Done (allgatherv_plan (length counts) counts) w
        → (r a : ℕ) → r < length counts
        → a < total counts
        → w.memory r a ≡ input (owner counts a) (a - before counts (owner counts a))
    unfolding primed_block copied memcpy
    allgatherv-gathers ranks counted sizes {w} reach done r a hr ha =
        ring-gathers (λ s. copied (primed_block (at s) (o s)) (input s) (output s)) reach done r a
          hr ha
        ∙ own (owner counts a) (owner_lt counts a ha) (owner_region counts a ha).0
            (owner_region counts a ha).1
      where
        own :
            (s : ℕ)
            → s < length counts
            → before counts s ≤ a
            → a < before counts s + entry counts s
            → copied (primed_block (at s) (o s)) (input s) (output s) a
              ≡ input s (a - before counts s)
        own s hs lo up =
            rw (sizes s hs, counted s hs, ranks s hs)
              (rw (lt→ltb 0 (entry counts s) (omega arith), entry-offsets_start counts s small hs)
                (rw (inside (before counts s) a (before counts s + entry counts s) lo up)
                  (ap (input s) (omega arith))))
