-- ===== src/Nm/Connections.antt =====
-- The connections that the calls of components/nm.c to libgobject leave.
pub mod Disconnects
pub mod Extends
pub mod Kept
pub mod Matched
pub mod Released
use slstatus.Prelude.{
  All, ◌^◌, ℕ, ◌<◌, ◌≡◌, refl, ap, List, [], ◌∷◌, ◌++◌, Option, none, some, ◌==◌, arith,
  if◌then◌else◌,
}
use slstatus.Nm.{Call, connect, disconnect, unref_client, Topic}

-- A callback that is connected, with the object, the signal and the entry that it is given.
pub record Handler : Type 0 where
  pub object : ℕ
  pub topic : Topic
  pub entry : ℕ

-- The handlers by their id, as the program's calls leave them; libgobject ends those of an object
-- that it finalizes besides.
abbrev pub Handlers : Type 0
Handlers = ℕ → Option Handler

abbrev pub no_handlers : Handlers
no_handlers id = none

abbrev pub after : Call → Handlers → Handlers
after (connect object topic p id) h =
    λ n. if n == id then some (record { object = object; topic = topic; entry = p }) else h n
after (disconnect object id) h = λ n. if n == id then none else h n
after unref_client h = h

unfoldable pub replay : List Call → Handlers → Handlers
replay [] h = h
replay (c ∷ calls) h = replay calls (after c h)

-- What is connected after some calls.
abbrev pub handlers : List Call → Handlers
handlers calls = replay calls no_handlers

-- A new handler has an id of its own, and only a handler of the object is disconnected.
abbrev pub IsAllowed : Call → Handlers → Type 0
IsAllowed (connect object topic p id) h = h id ≡ none
IsAllowed (disconnect object id) h =
    (topic : Topic) × (p : ℕ) × (h id ≡ some (record { object = object; topic = topic; entry = p }))
IsAllowed unref_client h = Unit

-- Each call is allowed at its time.
unfoldable pub AreAllowed : List Call → Handlers → Type 0
AreAllowed [] h = Unit {0}
AreAllowed (c ∷ calls) h = IsAllowed c h × AreAllowed calls (after c h)

pub replay-append :
    (cs ds : List Call) (h : Handlers) → replay (cs ++ ds) h ≡ replay ds (replay cs h)
unfolding replay
replay-append [] ds h = refl
replay-append (c ∷ cs) ds h = replay-append cs ds (after c h)

pub AreAllowed-append :
    (cs ds : List Call) (h : Handlers)
    → AreAllowed cs h
    → AreAllowed ds (replay cs h)
    → AreAllowed (cs ++ ds) h
unfolding replay AreAllowed
AreAllowed-append [] ds h a b = b
AreAllowed-append (c ∷ cs) ds h a b = (a.0, AreAllowed-append cs ds (after c h) a.1 b)

-- `g_signal_connect` returns an id, never 0, that no connected handler has.
pub record GivesIds (new_id : List Call → ℕ) : Type 0 where
  pub fresh : (calls : List Call) → handlers calls (new_id calls) ≡ none
  pub positive : (calls : List Call) → 0 < new_id calls

-- An id that a connection gives fits into an int.
abbrev pub IsSmall : Call → Type 0
IsSmall (connect object topic p id) = id < 2 ^ 31
IsSmall (disconnect object id) = Unit
IsSmall unref_client = Unit

pub AreSmall-last :
    (cs : List Call) (c : Call) → All IsSmall (cs ++ c ∷ []) → All IsSmall cs × IsSmall c
AreSmall-last [] c h = (tt, h.0)
AreSmall-last (d ∷ cs) c h = let (l, r) = AreSmall-last cs c h.1 in ((h.0, l), r)
