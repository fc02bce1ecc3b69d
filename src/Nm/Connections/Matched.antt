-- ===== src/Nm/Connections/Matched.antt =====
-- The ids that the entries of components/nm.c hold, against the handlers that are connected.

use mathlib.Core.Path.{subst}
use slstatus.Prelude.{
  ℕ, false, ◌≡◌, ◌≢◌, Option, none, some, ◌==◌, arith, if◌then◌else◌, Bool-cases, inl, inr,
}
use slstatus.Nm.{gulong_of, disconnect, device_state, strength, Entry}
use slstatus.Nm.Connections.{Handlers, after}

-- The ids of the entry at `p` are those of its own handlers.
pub record Matches (h : Handlers) (p : ℕ) (e : Entry) : Type 0 where
  pub given : (e.state_id == 0) ≡ false
  pub state :
      h (gulong_of e.state_id)
      ≡ some (record { object = e.device; topic = device_state; entry = p })
  pub point :
      (a : ℕ)
      → e.ap ≡ some a
      → h (gulong_of e.ss_id) ≡ some (record { object = a; topic = strength; entry = p })

abbrev pub AreMatched : Handlers → (ℕ → Option Entry) → Type 0
AreMatched h cells = (p : ℕ) (e : Entry) → cells p ≡ some e → Matches h p e

-- The entry behind a pointer that may have been written.
pub set_at :
    (P : ℕ → Entry → Type 0) (cells : ℕ → Option Entry) (p : ℕ) (e : Entry) (q : ℕ) (x : Entry)
    → (if q == p then some e else cells q) ≡ some x
    → P p e
    → (q ≢ p → cells q ≡ some x → P q x)
    → P q x
set_at P cells p e q x at written others = elim (Bool-cases (q == p)) [
  | inl same ↦
      let qp : p ≡ q = ground arith in
      let ex : e ≡ x = ground arith in subst (λ n. P n x) qp (subst (P p) ex written)
  | inr differs ↦ others (λ qp. ground arith) (ground arith)
]

pub AreMatched-set :
    (h : Handlers) (cells : ℕ → Option Entry) (p : ℕ) (e : Entry)
    → AreMatched h cells
    → Matches h p e
    → AreMatched h (λ q. if q == p then some e else cells q)
AreMatched-set h cells p e all m q x at = set_at (Matches h) cells p e q x at m (λ _. all q x)

-- Its own handler goes.
Matches-disconnect :
    (h : Handlers) (p a : ℕ) (e : Entry)
    → Matches h p e
    → e.ap ≡ some a
    → (after (disconnect a (gulong_of e.ss_id)) h) (gulong_of e.state_id)
      ≡ some (record { object = e.device; topic = device_state; entry = p })
Matches-disconnect h p a e m on = let s = m.state in let s' = m.point a on in ground arith

-- The handler of another entry goes.
Matches-disconnect_other :
    (h : Handlers) (p q a : ℕ) (e x : Entry)
    → Matches h p e
    → e.ap ≡ some a
    → q ≢ p
    → Matches h q x
    → Matches (after (disconnect a (gulong_of e.ss_id)) h) q x
Matches-disconnect_other h p q a e x m on differs mx =
    let gone = m.point a on in
    record {
      given = mx.given;
      state = let s = mx.state in ground arith;
      point = λ b onb. let s = mx.point b onb in ground arith;
    }

-- The entry at `p` leaves its access point: the handler that goes is its own.
pub AreMatched-disconnect :
    (h : Handlers) (cells : ℕ → Option Entry) (p a : ℕ) (e : Entry)
    → AreMatched h cells
    → cells p ≡ some e
    → e.ap ≡ some a
    → AreMatched (after (disconnect a (gulong_of e.ss_id)) h) (λ q.
      if q == p then some (record e { essid = none; ap = none; ss = 0; ss_id = 0 }) else cells q)
AreMatched-disconnect h cells p a e all at on q x atq =
    set_at (Matches (after (disconnect a (gulong_of e.ss_id)) h)) cells p _ q x atq
      (record {
        given = (all p e at).given;
        state = Matches-disconnect h p a e (all p e at) on;
        point = λ b onb. cc;
      })
      λ differs atx. Matches-disconnect_other h p q a e x (all p e at) on differs (all q x atx)
