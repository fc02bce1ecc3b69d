-- ===== src/Nm/Connections/Kept.antt =====
-- The operations of components/nm.c keep each entry's ids those of its own handlers.
use mathlib.Core.Path.{subst}
use slstatus.Prelude.{
  All, ℕ, ◌≡◌, refl, sym, ap, ◌∙◌, List, [], ◌∷◌, Option, none, some, ◌==◌, arith, if◌then◌else◌,
  Option-cases, inl, inr,
}
use slstatus.Prelude.Text.{Text}
use slstatus.Util.{World}
use slstatus.Pool.{TailQueue, insert, modify, empty}
use slstatus.Pool.Distinct.{AreDistinct, empty-AreDistinct, insert-AreDistinct}
use slstatus.Pool.Links.{on_both}
use slstatus.Nm.{
  int_of, gulong_of, Net, Call, disconnect, device_state, strength, Entry, AccessPoint, Nm, nm_init,
  nm_update, join, leave, roam, connected, nm_signal_strength_callback, nm_access_point_callback,
  nm_state_callback, nm_find, find_entry, make_entry, essid_at, watch_wifi, watch_state, blank,
}
use slstatus.Nm.Connections.{
  Handlers, no_handlers, replay, handlers, AreAllowed, replay-append, AreAllowed-append, GivesIds,
  IsSmall, AreSmall-last,
}
use slstatus.Nm.Connections.Matched.{Matches, AreMatched, AreMatched-set, AreMatched-disconnect}
use slstatus.Nm.Connections.Extends.{
  Extends, Extends-refl, Extends-trans, Matches-Extends, with_connection, new_handler, int_of-small,
  with_connection-Extends, watch_wifi-Watches,
}

module _ (T : TailQueue) (new_id : List Call → ℕ) (ids : GivesIds new_id) where
  -- The calls are allowed, every entry's ids are those of its own handlers, and no pointer is in the
  -- queue twice.
  pub record IsMatched (s : Nm T new_id) : Type 0 where
    pub allowed : AreAllowed s.calls no_handlers
    pub matched : AreMatched (handlers s.calls) s.pool.cells
    pub distinct : AreDistinct T s.pool

  -- An entry is set, after further calls.
  set-IsMatched :
      (s : Nm T new_id) (p : ℕ) (e : Entry) (calls : List Call)
      → IsMatched s
      → Extends s.calls calls
      → Matches (handlers calls) p e
      → AreAllowed calls no_handlers
        × AreMatched (handlers calls) (λ q. if q == p then some e else s.pool.cells q)
  set-IsMatched s p e calls h f m = (
    f.allowed h.allowed,
    AreMatched-set (handlers calls) s.pool.cells p e
        (λ q x at. Matches-Extends q x f (h.matched q x at)) m,
  )

  -- A write to an entry that leaves its ids, its device and its access point.
  write-IsMatched :
      (s : Nm T new_id) (p : ℕ) (e e' : Entry)
      → IsMatched s
      → s.pool.cells p ≡ some e
      → e'.device ≡ e.device
      → e'.state_id ≡ e.state_id
      → e'.ap ≡ e.ap
      → e'.ss_id ≡ e.ss_id
      → IsMatched (record s { pool = modify T p e' s.pool })
  unfolding modify
  write-IsMatched s p e e' h at same_device same_state same_ap same_ss =
      let m = h.matched p e at in
      let (allowed, matched) = set-IsMatched s p e' s.calls h (Extends-refl s.calls) (record {
        given = rw same_state m.given;
        state = rw (same_state, same_device) m.state;
        point = λ a on. rw same_ss (m.point a (sym same_ap ∙ on));
      }) in
      record {
        allowed = allowed;
        matched = matched;
        distinct = record { old = h.distinct.old; distinct = h.distinct.distinct };
      }

  -- `nm_update` leaves what the connections depend on.
  nm_update-kept :
      (net : Net) (e : Entry) (w : World)
      → let e' = (nm_update net e w).0 in
        (e'.device ≡ e.device) × (e'.state_id ≡ e.state_id) × (e'.ap ≡ e.ap) × (e'.ss_id ≡ e.ss_id)
  unfolding nm_update
  nm_update-kept net e w = ground arith

  pub nm_state_callback-IsMatched :
      (net : Net) (p : ℕ) (s : Nm T new_id) (w : World)
      → IsMatched s
      → IsMatched (nm_state_callback T new_id net p s w).0
  unfolding nm_state_callback
  nm_state_callback-IsMatched net p s w h = elim (Option-cases (s.pool.cells p)) [
    | inl at ↦ rw (at, nm_state_callback) h
    | inr (e, at) ↦
        let (d, i, a, j) = nm_update-kept net e w in
        rw (at, nm_state_callback) (write-IsMatched s p e (nm_update net e w).0 h at d i a j)
  ]

  pub nm_signal_strength_callback-IsMatched :
      (a : AccessPoint) (p : ℕ) (s : Nm T new_id) (w : World)
      → IsMatched s
      → IsMatched (nm_signal_strength_callback T new_id a p s w).0
  unfolding nm_signal_strength_callback
  nm_signal_strength_callback-IsMatched a p s w h = elim (Option-cases (s.pool.cells p)) [
    | inl at ↦ rw (at, nm_signal_strength_callback) h
    | inr (e, at) ↦
        rw (at, nm_signal_strength_callback)
          (on_both (λ (r : Nm T new_id × World). IsMatched r.0) _
            (write-IsMatched s p e _ h at refl refl refl refl) h)
  ]

  join-IsMatched :
      (net : Net) (a p : ℕ) (e : Entry) (s : Nm T new_id) (w : World)
      → IsMatched s
      → s.pool.cells p ≡ some e
      → All IsSmall (join T new_id net a p e s w).0.calls
      → IsMatched (join T new_id net a p e s w).0
  unfolding join connected modify
  join-IsMatched net a p e s w h at k =
      let f = with_connection-Extends T new_id ids a strength p s.calls in
      let point = net.access_point a in
      let e' : Entry = record e {
        ap = some a;
        essid = essid_at point e.essid;
        ss = point.strength;
        ss_id = int_of (new_id s.calls);
      } in
      let m : Matches (handlers (with_connection T new_id ids a strength p s.calls)) p e' = record {
        given = (h.matched p e at).given;
        state = f.kept (gulong_of e.state_id) _ (h.matched p e at).state;
        point = λ b on.
            new_handler T new_id ids a strength p s.calls (AreSmall-last s.calls _ k).1
            ∙ ap (λ c. some (record { object = c; topic = strength; entry = p })) (cc);
      } in
      let (allowed, matched) =
        set-IsMatched s p e' (with_connection T new_id ids a strength p s.calls) h f m in
      record {
        allowed = allowed;
        matched = matched;
        distinct = record { old = h.distinct.old; distinct = h.distinct.distinct };
      }

  abbrev left : Entry → Entry
  left e = record e { essid = none; ap = none; ss = 0; ss_id = 0 }

  leave-IsMatched :
      (p : ℕ) (e : Entry) (o : Option ℕ) (s : Nm T new_id) (w : World)
      → IsMatched s
      → s.pool.cells p ≡ some e
      → e.ap ≡ o
      → IsMatched (leave T new_id p e o s w).0
  unfolding leave modify replay AreAllowed
  leave-IsMatched p e none s w h at on = h
  leave-IsMatched p e (some a) s w h at on = record {
    allowed =
        AreAllowed-append s.calls _ no_handlers h.allowed
          ((strength, p, (h.matched p e at).point a on), tt);
    matched =
        subst (λ (g : Handlers). AreMatched g (modify T p (left e) s.pool).cells)
          (sym (replay-append s.calls (disconnect a (gulong_of e.ss_id) ∷ []) no_handlers))
          (AreMatched-disconnect (handlers s.calls) s.pool.cells p a e h.matched at on);
    distinct = record { old = h.distinct.old; distinct = h.distinct.distinct };
  }

  roam-IsMatched :
      (net : Net) (o : Option ℕ) (p : ℕ) (e : Entry) (s : Nm T new_id) (w : World)
      → IsMatched s
      → s.pool.cells p ≡ some e
      → All IsSmall (roam T new_id net o p e s w).0.calls
      → IsMatched (roam T new_id net o p e s w).0
  unfolding roam
  roam-IsMatched net none p e s w h at k = leave-IsMatched p e e.ap s w h at refl
  roam-IsMatched net (some a) p e s w h at k = join-IsMatched net a p e s w h at k

  pub nm_access_point_callback-IsMatched :
      (net : Net) (device p : ℕ) (s : Nm T new_id) (w : World)
      → IsMatched s
      → All IsSmall (nm_access_point_callback T new_id net device p s w).0.calls
      → IsMatched (nm_access_point_callback T new_id net device p s w).0
  unfolding nm_access_point_callback
  nm_access_point_callback-IsMatched net device p s w h k = elim (Option-cases (s.pool.cells p)) [
    | inl at ↦ rw (at, nm_access_point_callback) h
    | inr (e, at) ↦
        rw (at, nm_access_point_callback)
          (roam-IsMatched net (net.device device).active p e s w h at
            (rw (at, nm_access_point_callback) at k))
  ]

  make_entry-IsMatched :
      (net : Net) (iface : Text) (o : Option ℕ) (s : Nm T new_id) (w : World)
      → IsMatched s
      → All IsSmall (make_entry T new_id net iface o s w).1.calls
      → IsMatched (make_entry T new_id net iface o s w).1
  unfolding make_entry watch_state connected insert
  make_entry-IsMatched net iface none s w h k = h
  make_entry-IsMatched net iface (some device) s w h k =
      let p = s.pool.fresh in
      let e = (nm_update net (blank T new_id iface device net) w).0 in
      let (_, _, off, _) = nm_update-kept net (blank T new_id iface device net) w in
      let kind = (net.device device).kind in
      let (e', calls) = watch_wifi T new_id net kind p (e, s.calls) in
      let (before, small) = AreSmall-last calls _ k in
      let watched = watch_wifi-Watches T new_id ids net kind p e s.calls off before in
      let f = with_connection-Extends T new_id ids e'.device device_state p calls in
      let (allowed, matched) =
        set-IsMatched s p _ (with_connection T new_id ids e'.device device_state p calls) h
          (Extends-trans watched.extends f)
          (record {
            given =
                rw (int_of-small (new_id calls) small)
                  (let above = ids.positive calls in ground arith);
            state = new_handler T new_id ids e'.device device_state p calls small;
            point = λ a on. f.kept (gulong_of e'.ss_id) _ (watched.point a on);
          }) in
      record {
        allowed = allowed;
        matched = matched;
        distinct = insert-AreDistinct T _ s.pool h.distinct;
      }

  find_entry-IsMatched :
      (net : Net) (iface : Text) (o : Option ℕ) (s : Nm T new_id) (w : World)
      → IsMatched s
      → All IsSmall (find_entry T new_id net iface o s w).1.calls
      → IsMatched (find_entry T new_id net iface o s w).1
  unfolding find_entry
  find_entry-IsMatched net iface (some p) s w h k = h
  find_entry-IsMatched net iface none s w h k =
      make_entry-IsMatched net iface (net.by_iface iface) s w h k

  pub nm_find-IsMatched :
      (net : Net) (iface : Text) (s : Nm T new_id) (w : World)
      → IsMatched s
      → All IsSmall (nm_find T new_id net iface s w).1.calls
      → IsMatched (nm_find T new_id net iface s w).1
  unfolding nm_find
  nm_find-IsMatched net iface s w h k = find_entry-IsMatched net iface _ s w h k

  pub nm_init-IsMatched : IsMatched (nm_init T new_id)
  unfolding nm_init empty AreAllowed
  nm_init-IsMatched = record {
    allowed = tt;
    matched = λ p e at. cc;
    distinct = empty-AreDistinct T;
  }
