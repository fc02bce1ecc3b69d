-- ===== src/Nm/Connections/Disconnects.antt =====
-- What the disconnections of `nm_free` in components/nm.c do to the connected handlers.
use mathlib.Core.Path.{subst}
use slstatus.Prelude.{
  ℕ, ◌≡◌, ◌≢◌, ◌⊎◌, refl, sym, ap, ◌∙◌, false, List, [], ◌∷◌, Option, none, some, ◌==◌, arith, All,
  Bool-cases, inl, inr,
}
use slstatus.Pool.Distinct.{Distinct}
use slstatus.Pool.Links.{on_both}
use slstatus.Nm.{gulong_of, device_state, Entry}
use slstatus.Nm.Lines.{end_state, disconnects}
use slstatus.Nm.Connections.{
  Handler, Handlers, replay, AreAllowed, replay-append, AreAllowed-append,
}
use slstatus.Nm.Connections.Matched.{AreMatched}

-- The state callback of an entry is connected.
abbrev pub IsWatched : Handlers → (ℕ → Option Entry) → ℕ → Type 0
IsWatched h cells p =
    (e : Entry)
    → cells p ≡ some e
    → h (gulong_of e.state_id)
      ≡ some (record { object = e.device; topic = device_state; entry = p })

end_state-AreAllowed :
    (h : Handlers) (p : ℕ) (o : Option Entry)
    → ((e : Entry)
        → o ≡ some e
        → h (gulong_of e.state_id)
          ≡ some (record { object = e.device; topic = device_state; entry = p }))
    → AreAllowed (end_state o) h
unfolding end_state AreAllowed
end_state-AreAllowed h p none m = tt
end_state-AreAllowed h p (some e) m =
    on_both (λ cs. AreAllowed cs h) (e.state_id == 0) tt ((device_state, p, m e refl), tt)

-- A handler stays unless it is the state callback of the entry.
end_state-kept :
    (h : Handlers) (p : ℕ) (o : Option Entry) (id : ℕ) (x : Handler)
    → ((e : Entry)
        → o ≡ some e
        → h (gulong_of e.state_id)
          ≡ some (record { object = e.device; topic = device_state; entry = p }))
    → h id ≡ some x
    → ((x.topic ≢ device_state) ⊎ (x.entry ≢ p))
    → replay (end_state o) h id ≡ some x
unfolding end_state replay
end_state-kept h p none id x m c d = c
end_state-kept h p (some e) id x m c d = elim (Bool-cases (e.state_id == 0)) [
  | inl zeroed ↦ rw (zeroed, end_state) c
  | inr there ↦
      rw (there, end_state)
        (elim (Bool-cases (id == gulong_of e.state_id)) [
          | inl same ↦ absurd (
              let s = m e refl in
              elim d [ inl topic ↦ topic (ground arith) | inr entry ↦ entry (ground arith) ])
          | inr apart ↦ rw apart c
        ])
]

end_state-IsWatched :
    (h : Handlers) (cells : ℕ → Option Entry) (p q : ℕ)
    → IsWatched h cells p
    → IsWatched h cells q
    → q ≢ p
    → IsWatched (replay (end_state (cells p)) h) cells q
end_state-IsWatched h cells p q mp mq d e at =
    end_state-kept h p (cells p) (gulong_of e.state_id) _ mp (mq e at) (inr d)

rest-IsWatched :
    (h : Handlers) (cells : ℕ → Option Entry) (p : ℕ) (ps : List ℕ)
    → IsWatched h cells p
    → All (IsWatched h cells) ps
    → All (λ q. q ≢ p) ps
    → All (IsWatched (replay (end_state (cells p)) h) cells) ps
rest-IsWatched h cells p [] m ms d = tt
rest-IsWatched h cells p (q ∷ ps) m ms d =
    (end_state-IsWatched h cells p q m ms.0 d.0, rest-IsWatched h cells p ps m ms.1 d.1)

pub disconnects-AreAllowed :
    (h : Handlers) (cells : ℕ → Option Entry) (ps : List ℕ)
    → All (IsWatched h cells) ps
    → Distinct ps
    → AreAllowed (disconnects cells ps) h
unfolding disconnects AreAllowed
disconnects-AreAllowed h cells [] ms d = tt
disconnects-AreAllowed h cells (p ∷ ps) ms d =
    AreAllowed-append (end_state (cells p)) _ h (end_state-AreAllowed h p (cells p) ms.0) (
      disconnects-AreAllowed (replay (end_state (cells p)) h) cells ps
        (rest-IsWatched h cells p ps ms.0 ms.1 d.0) d.1)

-- Handlers of other signals stay.
pub disconnects-kept :
    (h : Handlers) (cells : ℕ → Option Entry) (ps : List ℕ) (id : ℕ) (x : Handler)
    → All (IsWatched h cells) ps
    → Distinct ps
    → h id ≡ some x
    → x.topic ≢ device_state
    → replay (disconnects cells ps) h id ≡ some x
unfolding disconnects replay
disconnects-kept h cells [] id x ms d c t = c
disconnects-kept h cells (p ∷ ps) id x ms d c t =
    ap (λ (g : Handlers). g id) (replay-append (end_state (cells p)) (disconnects cells ps) h)
    ∙ disconnects-kept (replay (end_state (cells p)) h) cells ps id x
        (rest-IsWatched h cells p ps ms.0 ms.1 d.0) d.1
        (end_state-kept h p (cells p) id x ms.0 c (inl t)) t

-- Nothing is connected by it.
end_state-none :
    (h : Handlers) (o : Option Entry) (id : ℕ) → h id ≡ none → replay (end_state o) h id ≡ none
unfolding end_state replay
end_state-none h none id c = c
end_state-none h (some e) id c =
    on_both (λ cs. replay cs h id ≡ none) (e.state_id == 0) c (ground arith)

disconnects-none :
    (h : Handlers) (cells : ℕ → Option Entry) (ps : List ℕ) (id : ℕ)
    → h id ≡ none
    → replay (disconnects cells ps) h id ≡ none
unfolding disconnects replay
disconnects-none h cells [] id c = c
disconnects-none h cells (p ∷ ps) id c =
    ap (λ (g : Handlers). g id) (replay-append (end_state (cells p)) (disconnects cells ps) h)
    ∙ disconnects-none (replay (end_state (cells p)) h) cells ps id
        (end_state-none h (cells p) id c)

-- The state callback of an entry is connected no more.
abbrev pub IsUnwatched : Handlers → (ℕ → Option Entry) → ℕ → Type 0
IsUnwatched h cells p = (e : Entry) → cells p ≡ some e → h (gulong_of e.state_id) ≡ none

end_state_own :
    (h : Handlers) (o : Option Entry) (e : Entry)
    → o ≡ some e
    → (e.state_id == 0) ≡ false
    → replay (end_state o) h (gulong_of e.state_id) ≡ none
unfolding end_state replay
end_state_own h o e c given = rw (c, end_state, given) (ground arith)

pub disconnects-IsUnwatched :
    (h : Handlers) (cells : ℕ → Option Entry) (ps : List ℕ)
    → ((p : ℕ) (e : Entry) → cells p ≡ some e → (e.state_id == 0) ≡ false)
    → All (IsUnwatched (replay (disconnects cells ps) h) cells) ps
unfolding disconnects replay
disconnects-IsUnwatched h cells [] given = tt
disconnects-IsUnwatched h cells (p ∷ ps) given =
    subst (λ (g : Handlers). All (IsUnwatched g cells) (p ∷ ps))
      (sym (replay-append (end_state (cells p)) (disconnects cells ps) h))
      (
        λ e at.
            disconnects-none (replay (end_state (cells p)) h) cells ps (gulong_of e.state_id)
              (end_state_own h (cells p) e at (given p e at)),
        disconnects-IsUnwatched (replay (end_state (cells p)) h) cells ps given,
      )

pub All-IsWatched :
    (h : Handlers) (cells : ℕ → Option Entry) (ps : List ℕ)
    → AreMatched h cells
    → All (IsWatched h cells) ps
All-IsWatched h cells [] m = tt
All-IsWatched h cells (p ∷ ps) m = (λ e at. (m p e at).state, All-IsWatched h cells ps m)
