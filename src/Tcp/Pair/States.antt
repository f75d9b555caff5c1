-- ===== src/Tcp/Pair/States.antt =====
-- The states of a pair: its socket, its registration and its exception agree with the state, and
-- the state moves forward.
use gloo.Prelude.{
  ℕ, ◌≤◌, ◌≡◌, refl, Bool, true, false, not, ◌&&◌, ◌||◌, List, ◌++◌, Option, none, some, arith,
}
use gloo.Tcp.Op.{Op}
use gloo.Tcp.Write.{WriteResult}
use gloo.Tcp.Pair.{
  State, initializing, connecting, connected, closed, Failure, Pair, Outcome, ok, thrown, blocked,
  change_state, clean_up, bound_ops, close, signal_exception, connect, connect_callback,
  signal_exception_external,
}

-- The order of the states.
unfoldable pub level : State → ℕ
level initializing = 0
level connecting = 1
level connected = 2
level closed = 3

unfoldable pub is_none : Option Failure → Bool
is_none none = true
is_none (some e) = false

-- What a pair in a state looks like: its descriptor, registration, mode and exception.
unfoldable pub shape : State → Bool → Bool → Bool → Bool → Option Failure → Bool
unfolding is_none
shape connected fd reads writes sync ex = fd && is_none ex && not (sync && (reads || writes))
shape closed fd reads writes sync ex = not fd && not (reads || writes)
shape _ fd reads writes sync ex = not fd && not (reads || writes) && is_none ex && not sync

-- A socket is open just while the pair is connected, only an open one is registered, a pair in
-- sync mode is not registered, and an exception closes the pair.
abbrev pub IsConsistent : Pair → Type 0
IsConsistent p = shape p.state p.fd_open p.reads p.writes p.sync p.ex ≡ true

-- However a call ends, the pair is consistent and no state behind where it was.
unfoldable pub Advances : {A : Type 0} → State → Outcome A → Type 0
Advances s (ok x q) = IsConsistent q × (level s ≤ level q.state)
Advances s (thrown e q) = IsConsistent q × (level s ≤ level q.state)
Advances s (blocked q) = IsConsistent q × (level s ≤ level q.state)

cleaned :
    (s : State) (p : Pair)
    → (ex : Option Failure) → shape s p.fd_open p.reads p.writes p.sync ex ≡ true
    → let q = clean_up s p in ((q.fd_open || q.reads || q.writes) ≡ false) × (q.sync ≡ p.sync)
unfolding shape clean_up is_none
cleaned initializing p ex c = ground arith
cleaned connecting p ex c = ground arith
cleaned connected p ex c = ground arith
cleaned closed p ex c = ground arith

pub clean_up-ex : (s : State) (p : Pair) → (clean_up s p).ex ≡ p.ex
unfolding clean_up
clean_up-ex initializing p = refl
clean_up-ex connecting p = ground arith
clean_up-ex connected p = ground arith
clean_up-ex closed p = refl

pub below_closed : (s : State) → level s ≤ level closed
unfolding level
below_closed initializing = omega arith
below_closed connecting = omega arith
below_closed connected = omega arith
below_closed closed = omega arith

-- Moving to the closed state, whatever exception is kept on the way.
pub closes :
    (p : Pair) (ex : Option Failure) (told : List Op) (wire : List ℕ) (script : List WriteResult)
    → IsConsistent p
    → IsConsistent
        (change_state (record p { ex = ex; told = told; wire = wire; script = script }) closed)
unfolding shape change_state
closes p ex told wire script c = ground (
  arith,
  cleaned p.state (record p { ex = ex; told = told; wire = wire; script = script }) p.ex c,
)

-- A connected pair has its descriptor and no exception.
connected_facts :
    (s : State) (fd reads writes sync : Bool) (ex : Option Failure)
    → shape s fd reads writes sync ex ≡ true
    → s ≡ connected
    → (fd ≡ true) × (ex ≡ none)
unfolding shape is_none
connected_facts connected true reads writes sync none c e = (refl, refl)
connected_facts connected true reads writes sync (some x) c e = ground arith
connected_facts connected false reads writes sync ex c e = ground arith
connected_facts initializing fd reads writes sync ex c e = ground arith
connected_facts connecting fd reads writes sync ex c e = ground arith
connected_facts closed fd reads writes sync ex c e = ground arith

pub facts : (p : Pair) → IsConsistent p → p.state ≡ connected → (p.fd_open ≡ true) × (p.ex ≡ none)
facts p c there = connected_facts p.state p.fd_open p.reads p.writes p.sync p.ex c there

-- The calls that make and break a connection leave a consistent pair, and never move its state
-- back; the device reports a connection while the pair is connecting.
pub life-Advances :
    (p : Pair) (e : Failure)
    → IsConsistent p
    → Advances p.state (connect p)
      × (IsConsistent (close p) × ((close p).state ≡ closed))
      × Advances p.state (signal_exception_external p e)
      × (p.state ≡ connecting
          → Advances p.state (connect_callback p true)
            × Advances p.state (connect_callback p false))
unfolding connect close signal_exception_external signal_exception connect_callback Advances
    change_state level shape
life-Advances p e c = by_state p.state p.ex p e c
  where
    by_state :
        (s : State) (ex : Option Failure) (p : Pair) (e : Failure)
        → let q : Pair = record p { state = s; ex = ex } in
          IsConsistent q
          → Advances s (connect q)
            × (IsConsistent (close q) × ((close q).state ≡ closed))
            × Advances s (signal_exception_external q e)
            × (s ≡ connecting
                → Advances s (connect_callback q true) × Advances s (connect_callback q false))
    by_state initializing (some x) p e c = ground arith
    by_state connecting (some x) p e c = ground arith
    by_state connected (some x) p e c = ground arith
    by_state closed (some x) p e c =
        ((c, omega arith), (c, refl), (c, omega arith), λ h. ground arith)
    by_state initializing none p e c = ground arith
    by_state connecting none p e c = ground arith
    by_state connected none p e c = ground arith
    by_state closed none p e c = ground arith

-- A connection that comes after the timeout of `connect` opens the closed pair again, and the
-- exception stays: the state moves back, and the pair is connected with an exception.
pub late_connection_reopens :
    (p : Pair) (e : Failure)
    → p.state ≡ connecting
    → p.ex ≡ none
    → (q : Pair) × (r : Pair) × (signal_exception_external p e ≡ ok tt q)
      × (q.state ≡ closed)
      × (connect_callback q false ≡ ok tt r)
      × (r.state ≡ connected)
      × (r.ex ≡ some e)
unfolding signal_exception_external signal_exception connect_callback change_state
late_connection_reopens p e there missing = rw missing (
  _,
  _,
  refl,
  refl,
  refl,
  refl,
  clean_up-ex p.state (record p { ex = some e; told = p.told ++ bound_ops p.tx }),
)
