-- ===== src/Mm/Find.antt =====
-- `mm_find` and the callback of a modem, in components/mm.c.
use slstatus.Prelude.{
  ℕ, ◌≡◌, refl, ap, ◌∙◌, Bool, not, ◌&&◌, ◌==◌, List, Option, none, some, arith, ◌+◌, if◌then◌else◌,
}
use slstatus.Prelude.Text.{Text, lit, text_eq, text_eq_refl}
use slstatus.Bar.{sigrtmin}
use slstatus.Util.{World, kill}
use slstatus.Pool.{TailQueue, find_by, modify}
use slstatus.Pool.Find.{IsLinked, find_by-insert}
use slstatus.Mm.{
  Modem, Entry, Mm, mm_find, find_entry, make_entry, modem_of, mm_modem_callback, callback_at,
  mm_signal,
}

module _ (T : TailQueue) where
  abbrev is_named : Text → Entry → Bool
  is_named iface e = text_eq e.iface iface

  -- The three ends of `mm_find`.
  data Ends (iface : Text) (s : Mm T) : Option ℕ × Mm T → Type 0 where
    missed : Ends iface s (none, s)
    hit : (p : ℕ) → find_by T (is_named iface) s.pool ≡ some p → Ends iface s (some p, s)
    made :
        (m : Modem)
        → find_by T (is_named iface) s.pool ≡ none
        → Ends iface s (make_entry T iface (some m) s)

  module _ (iface : Text) (modems : List Modem) (s : Mm T) where
    make_entry-Ends :
        (o : Option Modem)
        → find_by T (is_named iface) s.pool ≡ none
        → Ends iface s (make_entry T iface o s)
    unfolding make_entry
    make_entry-Ends none f = missed
    make_entry-Ends (some m) f = made m f

    find_entry-Ends :
        (o : Option ℕ)
        → find_by T (is_named iface) s.pool ≡ o
        → Ends iface s (find_entry T iface modems o s)
    unfolding find_entry
    find_entry-Ends (some p) f = hit p f
    find_entry-Ends none f = make_entry-Ends (modem_of iface modems) f

    mm_find-Ends : Ends iface s (mm_find T iface modems s)
    unfolding mm_find
    mm_find-Ends = find_entry-Ends _ refl

  find_hit :
      (iface : Text) (modems : List Modem) (s : Mm T) (p : ℕ)
      → find_by T (is_named iface) s.pool ≡ some p
      → mm_find T iface modems s ≡ (some p, s)
  unfolding mm_find find_entry
  find_hit iface modems s p f = ap (λ t. find_entry T iface modems t s) f

  again :
      (iface : Text) (modems : List Modem) (s : Mm T) {r : Option ℕ × Mm T} {p : ℕ}
      → IsLinked T s.pool
      → Ends iface s r
      → r.0 ≡ some p
      → mm_find T iface modems r.1 ≡ (some p, r.1)
  unfolding make_entry
  again iface modems s linked missed e = cc
  again iface modems s linked (hit p f) e = find_hit iface modems s _ (f ∙ e)
  again iface modems s linked (made m f) e =
      find_hit iface modems _ _
        (find_by-insert T (is_named iface) _ s.pool linked f (text_eq_refl iface) ∙ e)

  -- After `mm_find` has returned an entry for an interface, it returns the same pointer for it
  -- again and changes nothing, whatever modems the manager then lists.
  pub mm_find-mm_find :
      (iface : Text) (modems later : List Modem) (s : Mm T) (p : ℕ)
      → IsLinked T s.pool
      → (mm_find T iface modems s).0 ≡ some p
      → mm_find T iface later (mm_find T iface modems s).1 ≡ (some p, (mm_find T iface modems s).1)
  mm_find-mm_find iface modems later s p linked e =
      again iface later s linked (mm_find-Ends iface modems s) e

  -- The entry after a change of one of the two properties, which is watched.
  abbrev pub renewed : Modem → Text → Entry → Entry
  renewed m name e =
      if text_eq name (lit "state")
      then record e { state = m.state }
      else if text_eq name (lit "signal-quality")
      then record e { sq = m.signal_quality }
      else e

  -- Whether the property differs from what the entry holds.
  abbrev pub differs : Modem → Text → Entry → Bool
  differs m name e =
      if text_eq name (lit "state")
      then not (m.state == e.state)
      else text_eq name (lit "signal-quality") && not (m.signal_quality == e.sq)

  -- The callback stores the property and raises the component's signal exactly if the property
  -- differs from what the entry holds; else it changes nothing.
  pub mm_modem_callback_lem :
      (m : Modem) (name : Text) (p : ℕ) (s : Mm T) (w : World) (e : Entry)
      → s.pool.cells p ≡ some e
      → mm_modem_callback T m name p s w ≡ (
          if differs m name e
          then (
            record s { pool = modify T p (renewed m name e) s.pool },
            kill (sigrtmin + mm_signal) w,
          )
          else (s, w))
  unfolding mm_modem_callback callback_at
  mm_modem_callback_lem m name p s w e h = ap (λ o. callback_at T m name p o s w) h ∙ (ground arith)
