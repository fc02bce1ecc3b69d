-- ===== src/Backlight/Thread/Whole.antt =====
-- A round of `backlight_loop` in components/backlight.c, with lookups of the main thread between its
-- steps, against the round as a whole.
use mathlib.Core.Path.{subst}
use slstatus.Prelude.{
  ℕ, ◌+◌, ◌≡◌, refl, sym, ap, ◌∙◌, ◌⊎◌, Bool, true, false, Option, none, some, List, [], ◌∷◌, ◌++◌,
  arith, Bool-cases, inl, inr,
}
use slstatus.Prelude.Int.{eqb_ℤ}
use slstatus.Prelude.Text.{Text, text_eq}
use slstatus.Util.{World, kill}
use slstatus.Util.Float.{Float}
use slstatus.Bar.{sigrtmin}
use slstatus.Pool.{TailQueue, find_by}
use slstatus.Pool.Find.{IsLinked, find_by_sound, find_by-lt}
use slstatus.Pool.Links.{on_both, on_cell}
use slstatus.Backlight
use slstatus.Backlight.{Device, Backlight, backlight_signal, backlight_find, changed, brightness_of}
use slstatus.Backlight.Find.{find_hit}
use slstatus.Backlight.Links.{backlight_find-IsLinked}
use slstatus.Backlight.Thread
use slstatus.Backlight.Thread.{
  Pc, absent, receive_device, receiving, received, comparing, signalling, Answer, System,
  compare_with, after_find, backlight_loop, find, step_at,
}
use slstatus.Backlight.Thread.Holds.{Holds, backlight_find-Holds}
use slstatus.Backlight.Thread.Commutes.{find-signalled, find-compare_with}

-- The name and whether an entry is made.
abbrev pub Lookup : Type 0
Lookup = Text × Bool

-- Behind the receipt of a device and before the next receipt.
unfoldable pub is_busy : Pc → Bool
is_busy (received d) = true
is_busy (comparing d p) = true
is_busy signalling = true
is_busy _ = false

module _ (F : Float) (T : TailQueue) where
  -- The rest of a round: steps of the thread until it is to receive again, with the lookups of the
  -- main thread between them.
  pub data Round (t : System F T) : List Lookup → System F T → Type 0 where
    over : t.thread ≡ receive_device → Round t [] t
    watch :
        (a : Answer) (ls : List Lookup) (s : System F T)
        → is_busy s.thread ≡ true
        → Round t ls (backlight_loop F T a s)
        → Round t ls s
    look :
        (name : Text) (create : Bool) (ls : List Lookup) (s : System F T)
        → Round t ls (find F T name create s)
        → Round t ((name, create) ∷ ls) s

  unfoldable pub finds : List Lookup → System F T → System F T
  finds [] s = s
  finds ((name, create) ∷ ls) s = finds ls (find F T name create s)

  -- The round as a whole.
  unfoldable pub whole : Device → System F T → System F T
  whole d s =
      let (b, w) = Backlight.backlight_loop F T (some d) s.backlight s.world in
      record s { backlight = b; world = w; thread = receive_device }

  -- The signal that is still to be raised.
  finish_at : Pc → System F T → System F T
  finish_at signalling s = record s {
    world = kill (sigrtmin + backlight_signal) s.world;
    thread = receive_device;
  }
  finish_at _ s = s

  abbrev finish : System F T → System F T
  finish s = finish_at s.thread s

  find-finish_at :
      (name : Text) (create : Bool) (pc : Pc) (s : System F T)
      → finish_at pc (find F T name create s) ≡ find F T name create (finish_at pc s)
  unfolding finish_at
  find-finish_at name create signalling s = sym (find-signalled F T name create s)
  find-finish_at name create absent s = refl
  find-finish_at name create _ s = refl

  idle_lem :
      (t : System F T) (ls : List Lookup) (s : System F T)
      → Round t ls s
      → s.thread ≡ receive_device
      → t ≡ finds ls s
  unfolding finds find is_busy
  idle_lem t _ _ (over e) h = refl
  idle_lem t ls s (watch a _ _ busy rest) h = absurd (let free = ap is_busy h in ground arith)
  idle_lem t _ s (look name create ls _ rest) h = idle_lem t ls (find F T name create s) rest h

  signalling_lem :
      (t : System F T) (ls : List Lookup) (s : System F T)
      → Round t ls s
      → s.thread ≡ signalling
      → t ≡ finds ls (finish_at signalling s)
  unfolding finds find backlight_loop step_at finish_at
  signalling_lem t _ _ (over e) h = cc
  signalling_lem t ls s (watch a _ _ busy rest) h =
      let stepped : backlight_loop F T a s ≡ finish_at signalling s =
        ap (λ pc. step_at F T pc a s) h in
      idle_lem t ls (backlight_loop F T a s) rest (ap (λ u. u.thread) stepped)
      ∙ ap (finds ls) stepped
  signalling_lem t _ s (look name create ls _ rest) h =
      signalling_lem t ls (find F T name create s) rest h
      ∙ ap (finds ls) (find-finish_at name create signalling s)

  -- Behind the comparison.
  abbrev IsCompared : Pc → Type 0
  IsCompared pc = (pc ≡ signalling) ⊎ (pc ≡ receive_device)

  compared_lem :
      (t : System F T) (ls : List Lookup) (s : System F T)
      → Round t ls s
      → IsCompared s.thread
      → t ≡ finds ls (finish s)
  unfolding finish_at
  compared_lem t ls s rest (inl h) =
      signalling_lem t ls s rest h ∙ ap (λ pc. finds ls (finish_at pc s)) (sym h)
  compared_lem t ls s rest (inr h) =
      idle_lem t ls s rest h ∙ ap (λ pc. finds ls (finish_at pc s)) (sym h)

  compare_with-IsCompared :
      (d : Device) (p : ℕ) (s : System F T) → IsCompared (compare_with F T d p s).thread
  unfolding compare_with
  compare_with-IsCompared d p s =
      on_cell (λ (u : System F T). IsCompared u.thread) (s.backlight.pool.cells p) (inr refl)
        λ e. on_both (λ (u : System F T). IsCompared u.thread) _ (inl refl) (inr refl)

  comparing_lem :
      (t : System F T) (ls : List Lookup) (d : Device) (p : ℕ) (s : System F T)
      → Round t ls s
      → s.thread ≡ comparing d p
      → Holds F T d p s.backlight
      → t ≡ finds ls (finish (compare_with F T d p s))
  unfolding finds find backlight_loop step_at
  comparing_lem t _ d p _ (over e) h held = cc
  comparing_lem t ls d p s (watch a _ _ busy rest) h held =
      let stepped : backlight_loop F T a s ≡ compare_with F T d p s =
        ap (λ pc. step_at F T pc a s) h in
      compared_lem t ls (compare_with F T d p s) (subst (Round t ls) stepped rest)
        (compare_with-IsCompared d p s)
  comparing_lem t _ d p s (look name create ls _ rest) h held =
      let u = compare_with F T d p s in
      comparing_lem t ls d p (find F T name create s) rest h
        (backlight_find-Holds F T name create d p s.backlight s.world held)
      ∙ ap (λ v. finds ls (finish v)) (sym (find-compare_with F T name create d p s held))
      ∙ ap (finds ls) (find-finish_at name create u.thread u)

  -- The entry of a device.
  abbrev sought : Device → System F T → Option ℕ
  sought d s = find_by T (λ e. text_eq e.name d.sysname) s.backlight.pool

  look_up_lem :
      (d : Device) (o : Option ℕ) (s : System F T)
      → sought d s ≡ o
      → Thread.look_up F T d s ≡ record s { thread = after_find F T d o }
  unfolding Thread.look_up
  look_up_lem d o s h =
      ap
        (λ (r : Option ℕ × Backlight F T × World). record s {
          backlight = r.1;
          world = r.2;
          thread = after_find F T d r.0;
        })
        (find_hit F T d s.backlight s.world o h)

  whole_lem :
      (d : Device) (o : Option ℕ) (s : System F T)
      → sought d s ≡ o
      → whole d s ≡ (
          let (b, w) = changed F T d o s.backlight s.world in
          record s { backlight = b; world = w; thread = receive_device })
  unfolding whole Backlight.backlight_loop
  whole_lem d o s h =
      ap
        (λ (r : Option ℕ × Backlight F T × World).
          let (b, w) = changed F T d r.0 r.1 r.2 in
          record s { backlight = b; world = w; thread = receive_device })
        (find_hit F T d s.backlight s.world o h)

  compared-changed :
      (d : Device) (p : ℕ) (s : System F T)
      → Holds F T d p s.backlight
      → finish (compare_with F T d p s) ≡ (
          let (b, w) = changed F T d (some p) s.backlight s.world in
          record s { backlight = b; world = w; thread = receive_device })
  unfolding compare_with changed finish_at
  compared-changed d p s (e, at, named, old) =
      elim (Bool-cases (eqb_ℤ (brightness_of F d) e.brightness)) [
        | inl t ↦ rw (at, compare_with, changed, t) refl
        | inr t ↦ rw (at, compare_with, changed, t) refl
      ]

  found_lem :
      (t : System F T) (ls : List Lookup) (d : Device) (o : Option ℕ) (s : System F T)
      → Round t ls (record s { thread = after_find F T d o })
      → IsLinked T s.backlight.pool
      → sought d s ≡ o
      → t ≡ finds ls (whole d s)
  unfolding after_find changed
  found_lem t ls d none s rest linked h =
      idle_lem t ls (record s { thread = receive_device }) rest refl
      ∙ ap (finds ls) (sym (whole_lem d none s h))
  found_lem t ls d (some p) s rest linked h =
      let (e, at, named) = find_by_sound T _ s.backlight.pool p h in
      let held : Holds F T d p s.backlight =
        (e, at, named, find_by-lt T _ s.backlight.pool p linked h) in
      let u : System F T = record s { thread = comparing d p } in
      comparing_lem t ls d p u rest refl held
      ∙ ap (finds ls) (compared-changed d p u held ∙ sym (whole_lem d (some p) s h))

  -- From the receipt of a device on, with every pointer of the queue pointing to an entry: whatever
  -- lookups the main thread makes between the steps of the thread's round, the state at the round's
  -- end is that of some first lookups, the round as a whole, and the other lookups behind it.
  pub Round-whole :
      (t : System F T) (ls : List Lookup) (d : Device) (s : System F T)
      → Round t ls s
      → s.thread ≡ received d
      → IsLinked T s.backlight.pool
      → (before : List Lookup) × (after : List Lookup) × (ls ≡ before ++ after)
        × (t ≡ finds after (whole d (finds before s)))
  unfolding finds find backlight_loop step_at
  Round-whole t _ d _ (over e) h linked = cc
  Round-whole t ls d s (watch a _ _ busy rest) h linked =
      let stepped : backlight_loop F T a s ≡ record s { thread = after_find F T d (sought d s) } =
        ap (λ pc. step_at F T pc a s) h ∙ look_up_lem d (sought d s) s refl in
      ([], ls, refl, found_lem t ls d (sought d s) s (subst (Round t ls) stepped rest) linked refl)
  Round-whole t _ d s (look name create ls _ rest) h linked =
      let (before, after, e, end) =
        Round-whole t ls d (find F T name create s) rest h
          (backlight_find-IsLinked F T name create s.backlight s.world linked) in
      ((name, create) ∷ before, after, ap (λ l. (name, create) ∷ l) e, end)
