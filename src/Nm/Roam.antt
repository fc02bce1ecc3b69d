-- ===== src/Nm/Roam.antt =====
-- The calls of `nm_access_point_callback` in components/nm.c when the access point changes.
use slstatus.Prelude.{ℕ, ◌≡◌, refl, ap, ◌∙◌, List, [], ◌∷◌, ◌++◌, none, some, arith, arith}
use slstatus.Util.{World}
use slstatus.Pool.{TailQueue, modify}
use slstatus.Nm.{
  gulong_of, int_of, Net, Entry, Call, connect, disconnect, strength, Nm, nm_access_point_callback,
  roam, join, leave, essid_at, connected,
}

module _ (T : TailQueue) (new_id : List Call → ℕ) (device p : ℕ) where
  callback_join :
      (net : Net) (e : Entry) (a : ℕ) (s : Nm T new_id) (w : World)
      → s.pool.cells p ≡ some e
      → (net.device device).active ≡ some a
      → nm_access_point_callback T new_id net device p s w ≡ join T new_id net a p e s w
  unfolding nm_access_point_callback roam
  callback_join net e a s w c h = rw (c, nm_access_point_callback, h) refl

  callback_leave :
      (net : Net) (e : Entry) (old : ℕ) (s : Nm T new_id) (w : World)
      → s.pool.cells p ≡ some e
      → (net.device device).active ≡ none
      → e.ap ≡ some old
      → nm_access_point_callback T new_id net device p s w ≡ leave T new_id p e (some old) s w
  unfolding nm_access_point_callback roam
  callback_leave net e old s w c h a = rw (c, nm_access_point_callback, h, roam, a) refl

  abbrev joined : Net → Entry → ℕ → Nm T new_id → Entry
  joined net e a s = record e {
    ap = some a;
    essid = essid_at (net.access_point a) e.essid;
    ss = (net.access_point a).strength;
    ss_id = int_of (new_id s.calls);
  }

  -- When a device goes from an access point over to another and then has none, the only strength
  -- callback that is disconnected is the second one: the calls are its connection and its
  -- disconnection, and the id of the first one is no longer in the entry.
  pub roam_lem :
      (net later : Net) (e : Entry) (first second : ℕ) (s : Nm T new_id) (w w' : World)
      → s.pool.cells p ≡ some e
      → e.ap ≡ some first
      → (net.device device).active ≡ some second
      → (later.device device).active ≡ none
      → let s' = (nm_access_point_callback T new_id net device p s w).0 in
        let s'' = (nm_access_point_callback T new_id later device p s' w').0 in
        s''.calls
        ≡ (s.calls ++ connect second strength p (new_id s.calls) ∷ [])
          ++ disconnect second (gulong_of (int_of (new_id s.calls))) ∷ []
  unfolding join leave connected modify
  roam_lem net later e first second s w w' c a on off =
      ap (λ r. (nm_access_point_callback T new_id later device p r.0 w').0.calls)
        (callback_join net e second s w c on)
      ∙ ap (λ r. r.0.calls)
          (callback_leave later (joined net e second s) second (join T new_id net second p e s w).0
            w' (ground arith) off refl)
