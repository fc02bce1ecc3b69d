-- ===== src/Nm/Connections/Extends.antt =====
-- Connecting the callbacks of components/nm.c leaves the handlers that are connected already.
use slstatus.Prelude.{
  All, ◌^◌, ◌<◌, ℕ, ◌+◌, ◌<◌, ◌≡◌, ◌≢◌, refl, sym, ap, ◌∙◌, true, false, List, [], ◌∷◌, ◌++◌,
  Option, none, some, ◌==◌, arith, if◌then◌else◌, Bool-cases, Option-cases, inl, inr,
}
use slstatus.Pool.{TailQueue}
use slstatus.Nm.{
  int_of, gulong_of, Net, Call, connect, Topic, strength, active_access_point, Entry, Kind,
  ethernet, wifi, other, connected, watch_wifi, watch_strength,
}
use slstatus.Nm.Connections.{
  Handler, no_handlers, after, replay, handlers, AreAllowed, replay-append, AreAllowed-append,
  GivesIds, IsSmall, AreSmall-last,
}
use slstatus.Nm.Connections.Matched.{Matches}

-- Further calls that are allowed where the first ones are, and disconnect nothing of theirs.
pub record Extends (calls calls' : List Call) : Type 0 where
  pub allowed : AreAllowed calls no_handlers → AreAllowed calls' no_handlers
  pub kept : (id : ℕ) (x : Handler) → handlers calls id ≡ some x → handlers calls' id ≡ some x

pub Extends-refl : (calls : List Call) → Extends calls calls
Extends-refl calls = record { allowed = λ h. h; kept = λ id x h. h }

pub Extends-trans : {a b c : List Call} → Extends a b → Extends b c → Extends a c
Extends-trans f g = record {
  allowed = λ h. g.allowed (f.allowed h);
  kept = λ id x h. g.kept id x (f.kept id x h);
}

pub Matches-Extends :
    {calls calls' : List Call} (p : ℕ) (e : Entry)
    → Extends calls calls'
    → Matches (handlers calls) p e
    → Matches (handlers calls') p e
Matches-Extends p e f m = record {
  given = m.given;
  state = f.kept (gulong_of e.state_id) _ m.state;
  point = λ a on. f.kept (gulong_of e.ss_id) _ (m.point a on);
}

pub int_of-small : (id : ℕ) → id < 2 ^ 31 → int_of id ≡ id
unfolding int_of
int_of-small id h = omega arith

-- A small id goes through an int and back.
gulong_of-int_of : (id : ℕ) → id < 2 ^ 31 → gulong_of (int_of id) ≡ id
unfolding gulong_of
gulong_of-int_of id h = rw (int_of-small id h) (ground arith)

module _ (T : TailQueue) (new_id : List Call → ℕ) (ids : GivesIds new_id) where
  abbrev pub with_connection : (object : ℕ) → Topic → (p : ℕ) → List Call → List Call
  with_connection object topic p calls = calls ++ connect object topic p (new_id calls) ∷ []

  handlers-with_connection :
      (object : ℕ) (topic : Topic) (p : ℕ) (calls : List Call)
      → handlers (with_connection object topic p calls)
        ≡ after (connect object topic p (new_id calls)) (handlers calls)
  unfolding replay
  handlers-with_connection object topic p calls = replay-append calls _ no_handlers

  -- The new handler.
  pub new_handler :
      (object : ℕ) (topic : Topic) (p : ℕ) (calls : List Call)
      → new_id calls < 2 ^ 31
      → handlers (with_connection object topic p calls) (gulong_of (int_of (new_id calls)))
        ≡ some (record { object = object; topic = topic; entry = p })
  new_handler object topic p calls small =
      rw (gulong_of-int_of (new_id calls) small, handlers-with_connection object topic p calls)
        (ground arith)

  pub with_connection-Extends :
      (object : ℕ) (topic : Topic) (p : ℕ) (calls : List Call)
      → Extends calls (with_connection object topic p calls)
  unfolding AreAllowed
  with_connection-Extends object topic p calls = record {
    allowed = λ h. AreAllowed-append calls _ no_handlers h (ids.fresh calls, tt);
    kept = λ id x h.
        rw (handlers-with_connection object topic p calls)
          (let free = ids.fresh calls in ground arith);
  }

  -- What the entry at `p` has become after some calls.
  pub record Watches (p : ℕ) (e : Entry) (calls : List Call) (r : Entry × List Call) : Type 0 where
    pub extends : Extends calls r.1
    pub device : r.0.device ≡ e.device
    pub point :
        (a : ℕ)
        → r.0.ap ≡ some a
        → handlers r.1 (gulong_of r.0.ss_id)
          ≡ some (record { object = a; topic = strength; entry = p })

  watch_strength-Watches :
      (net : Net) (o : Option ℕ) (p : ℕ) (e : Entry) (calls : List Call)
      → e.ap ≡ o
      → All IsSmall (watch_strength T new_id net o p (e, calls)).1
      → Watches p e calls (watch_strength T new_id net o p (e, calls))
  unfolding watch_strength connected
  watch_strength-Watches net none p e calls h k = record {
    extends = Extends-refl calls;
    device = refl;
    point = λ a on. cc;
  }
  watch_strength-Watches net (some ap) p e calls h k = record {
    extends = with_connection-Extends ap strength p calls;
    device = refl;
    point = λ a on.
        let same : ap ≡ a = cc in
        new_handler ap strength p calls (AreSmall-last calls _ k).1
        ∙ slstatus.Prelude.ap (λ b. some (record { object = b; topic = strength; entry = p })) same;
  }

  pub watch_wifi-Watches :
      (net : Net) (kind : Kind) (p : ℕ) (e : Entry) (calls : List Call)
      → e.ap ≡ none
      → All IsSmall (watch_wifi T new_id net kind p (e, calls)).1
      → Watches p e calls (watch_wifi T new_id net kind p (e, calls))
  unfolding watch_wifi connected
  watch_wifi-Watches net ethernet p e calls h k = record {
    extends = Extends-refl calls;
    device = refl;
    point = λ a on. cc;
  }
  watch_wifi-Watches net other p e calls h k = record {
    extends = Extends-refl calls;
    device = refl;
    point = λ a on. cc;
  }
  watch_wifi-Watches net wifi p e calls h k =
      let o = (net.device e.device).active in
      let calls' = with_connection e.device active_access_point p calls in
      let watched =
        watch_strength-Watches net o p (record e { ap = o; ap_id = int_of (new_id calls) }) calls'
          refl k in
      record {
        extends =
            Extends-trans (with_connection-Extends e.device active_access_point p calls)
              watched.extends;
        device = watched.device;
        point = watched.point;
      }
