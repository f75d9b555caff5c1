-- ===== src/Tcp/Endpoint/Refine.antt =====
-- `Pair::recv` and `Pair::tryRecv` of gloo/transport/tcp/pair.cc on the ledger of the context.
use gloo.Prelude.{ℕ, ◌≡◌, refl, ap, ◌∙◌, true, false, List, [], ◌∷◌, ◌==◌, if◌then◌else◌, arith}
use mathlib.Core.Path.{fun_ext}
use gloo.Transport.Tally.View.{mem, without}
use gloo.Transport.Mutator.{open_mutator, shift_remote_pending_send}
use gloo.Transport.Mutator.Ledger.{IsValid, ledger, enqueue, dequeue}
use gloo.Transport.Mutator.Refine.{
  shift_remote_pending_send_refines, shift_send-push_expected_refines,
}
use gloo.Tcp.RecvAny.{UnboundBufferOp}
use gloo.Tcp.Endpoint.{Endpoint, announce_recv, post_recv, try_recv}

without_absent : (a : ℕ) (xs : List ℕ) → mem a xs ≡ false → without a xs ≡ xs
unfolding mem without
without_absent a [] h = refl
without_absent a (x ∷ xs) h = ground (arith, without_absent a xs)

dequeue_absent :
    (slot rank : ℕ) (q : ℕ → List ℕ) → mem rank (q slot) ≡ false → dequeue slot rank q ≡ q
dequeue_absent slot rank q h = fun_ext at_each
  where
    at_each : (o : ℕ) → (if slot == o then without rank (q slot) else q o) ≡ q o
    at_each o = ground (arith, without_absent rank (q slot) h)

module _ (e : Endpoint) (slot : ℕ) (u : UnboundBufferOp) (valid : IsValid e.tallies) where
  found_is :
      (shift_remote_pending_send (open_mutator e.tallies slot e.peer)).0
      ≡ mem e.peer ((ledger e.tallies).sends slot)
  found_is = (shift_remote_pending_send_refines e.tallies slot e.peer valid).0

  -- On the pending operations and the expected notifications of the context, in which no slot has
  -- two entries or an empty one, a receive posted on a pair removes the oldest pending send of its
  -- peer on the slot when there is one, and else puts the peer at the end of the notifications
  -- expected on the slot. All else stays as it is.
  pub post_recv_refines :
      let before = ledger e.tallies in
      let after = ledger (post_recv e slot u).0.tallies in
      (mem e.peer (before.sends slot) ≡ true
        → after ≡ record before { sends = dequeue slot e.peer before.sends })
      × (mem e.peer (before.sends slot) ≡ false
          → after ≡ record before { expected = enqueue slot e.peer before.expected })
  unfolding post_recv announce_recv
  post_recv_refines = (
    λ h.
        let yes_ = found_is ∙ h in
        rw yes_ ((shift_remote_pending_send_refines e.tallies slot e.peer valid).1),
    λ h.
        let no_ = found_is ∙ h in
        rw no_ (
          shift_send-push_expected_refines e.tallies slot e.peer valid
          ∙ ap
              (λ q. record (ledger e.tallies) {
                sends = q;
                expected = enqueue slot e.peer (ledger e.tallies).expected;
              })
              (dequeue_absent slot e.peer (ledger e.tallies).sends h)),
  )

  -- On pending operations and expected notifications in which no slot has two entries or an empty
  -- one, a receive that is tried succeeds just when its peer has a pending send on the slot. It then
  -- removes the oldest; else it changes no tally, posts nothing and sends nothing.
  pub try_recv_refines :
      let before = ledger e.tallies in
      let (done, e', sent) = try_recv e slot u in
      (mem e.peer (before.sends slot) ≡ true
        → (done ≡ true)
          × (ledger e'.tallies ≡ record before { sends = dequeue slot e.peer before.sends }))
      × (mem e.peer (before.sends slot) ≡ false
          → (done ≡ false)
            × (ledger e'.tallies ≡ before)
            × (e'.local_pending_recv ≡ e.local_pending_recv)
            × (sent ≡ []))
  unfolding try_recv announce_recv
  try_recv_refines = (
    λ h.
        let yes_ = found_is ∙ h in
        rw yes_ (refl, (shift_remote_pending_send_refines e.tallies slot e.peer valid).1),
    λ h.
        let no_ = found_is ∙ h in
        rw no_ (
          refl,
          (shift_remote_pending_send_refines e.tallies slot e.peer valid).1
              ∙ ap (λ q. record (ledger e.tallies) { sends = q })
                  (dequeue_absent slot e.peer (ledger e.tallies).sends h),
          refl,
          refl,
        ),
  )
