-- ===== src/Pa.antt =====
-- components/pa.c: the PulseAudio sinks that the bar shows. libpulse is seen through the calls of
-- its callbacks; what the program asks of it is a list of requests.
use slstatus.Prelude.{
  ℕ, ◌+◌, ◌%◌, Bool, true, false, not, ◌&&◌, ◌||◌, List, [], ◌∷◌, ◌++◌, Option, none, some, ◌==◌,
  ltb, if◌then◌else◌,
}
use slstatus.Prelude.Int.{ℤ, pos, eqb_ℤ, ltb_ℤ}
use slstatus.Prelude.Text.{Text, lit, glyph, text_eq}
use slstatus.Stdio.Format.{str, int}
use slstatus.Util.{World, bprintf, kill}
use slstatus.Util.Float.{Float}
use slstatus.Bar.{sigrtmin}
use slstatus.Pool.{TailQueue, Pool, empty, walk, find_by, insert, modify}
pub mod Heard
pub mod Links
pub mod Info
pub mod Init
pub mod Named
pub mod Sink
pub mod Texts
pub mod Thread

abbrev pub pa_signal : ℕ
pa_signal = 4

-- PA_VOLUME_NORM, and the mask and value of PA_SUBSCRIPTION_EVENT_SINK, of libpulse.
abbrev pub volume_norm : ℕ
volume_norm = 0x10000

abbrev pub facility_mask_plus_one : ℕ
facility_mask_plus_one = 16

abbrev pub event_sink : ℕ
event_sink = 0

-- `pa_t`
pub record Entry : Type 0 where
  pub sink : Option Text
  pub name : Option Text
  pub description : Option Text
  pub index : ℕ
  pub volume : ℤ
  pub mute : ℤ

-- What the program uses of a `pa_sink_info`; `volume` is `pa_cvolume_max` of its channels.
pub record SinkInfo : Type 0 where
  pub index : ℕ
  pub volume : ℕ
  pub mute : ℤ
  pub name : Text
  pub description : Text

-- A request to the server: information on a sink for the entry at an address, or on the server.
pub data Request : Type 0 where
  by_name : Option Text → ℕ → Request
  by_index : ℕ → ℕ → Request
  server_info : Request

-- How the walk of `pa_find_by_sink` ends: `strcmp` reads the name of an entry that has none.
pub data Walked : Type 0 where
  found : ℕ → Walked
  fell_off : Walked
  null_read : Walked

-- `(!sink && !pa->sink) || (sink && !strcmp(pa->sink, sink))`; `none`: a read at NULL.
unfoldable pub matches_sink : Option Text → Option Text → Option Bool
matches_sink none none = some true
matches_sink none (some own) = some false
matches_sink (some sink) none = none
matches_sink (some sink) (some own) = some (text_eq own sink)

pub walk_sink : Option Text → (ℕ → Option Entry) → List ℕ → Walked
unfolding matches_sink
walk_sink sink cells [] = fell_off
walk_sink sink cells (p ∷ ps) = elim (cells p) [
  | none ↦ null_read
  | some e ↦
      let more = walk_sink sink cells ps in
      elim (matches_sink sink e.sink) [
        | none ↦ null_read
        | some hit ↦ if hit then found p else more
      ]
]

module _ (F : Float) where
  open F use {of_ℕ, add, mul, div, single, trunc}

  -- `(int)(pa_cvolume_max(&info->volume) * 100.0f / PA_VOLUME_NORM + 0.5f)`, each operation rounded
  -- to a float.
  unfoldable pub percent : ℕ → ℤ
  percent v =
      let hundredfold = single (mul (single (of_ℕ v)) (of_ℕ 100)) in
      let part = single (div hundredfold (of_ℕ volume_norm)) in
      trunc (single (add part (div (of_ℕ 1) (of_ℕ 2))))

  -- The entry after a sink's information has come.
  unfoldable pub informed : SinkInfo → Entry → Entry
  unfolding percent
  informed info e = record {
    sink = e.sink;
    name = some info.name;
    description = some info.description;
    index = info.index;
    volume = percent info.volume;
    mute = info.mute;
  }

  -- `signal != 0` behind the three comparisons.
  unfoldable pub news : SinkInfo → Entry → Bool
  unfolding percent
  news info e =
      not (info.index == e.index)
      || not (eqb_ℤ (percent info.volume) e.volume)
      || not (eqb_ℤ info.mute e.mute)

module _ (T : TailQueue) where
  open T use {entries}

  -- The file-scope variables but for the connection, and the requests so far.
  pub record Pa : Type 0 where
    pub pool : Pool T Entry
    pub default_sink : Option Text
    pub requests : List Request
    -- Whether `pa_ctx` is a context that is ready. Where it is not, a request for a sink returns no
    -- operation, and it or pa_operation_unref behind it aborts.
    pub accepts : Bool

  unfoldable pub pa_find_by_index : ℕ → Pa → Option ℕ
  pa_find_by_index index s = find_by T (λ e. e.index == index) s.pool

  -- The three names that stand for the default sink.
  unfoldable pub own_sink : Option Text → Option Text
  own_sink none = none
  own_sink (some sink) =
      if text_eq sink (lit "@DEFAULT_SINK@") || text_eq sink (lit "@DEFAULT_AUDIO_SINK@")
      then none
      else some sink

  unfoldable pub new_sink : Option Text → Pa → ℕ × Pa
  unfolding own_sink
  new_sink sink s = (
    s.pool.fresh,
    record s {
      pool =
          insert T
            (record {
              sink = own_sink sink;
              name = none;
              description = none;
              index = 0;
              volume = pos 0;
              mute = pos 0;
            })
            s.pool;
      requests = s.requests ++ by_name (own_sink sink) s.pool.fresh ∷ [];
    },
  )

  -- `none` is a crash.
  unfoldable pub add_sink : Option Text → Pa → Option (ℕ × Pa)
  unfolding new_sink
  add_sink sink s = if s.accepts then some (new_sink sink s) else none

  pub end_walk : Option Text → Walked → Pa → Option (ℕ × Pa)
  unfolding add_sink
  end_walk sink (found p) s = some (p, s)
  end_walk sink fell_off s = add_sink sink s
  end_walk sink null_read s = none

  -- `none` is a crash. Without one an entry is returned.
  unfoldable pub pa_find_by_sink : Option Text → Pa → Option (ℕ × Pa)
  unfolding walk_sink end_walk
  pa_find_by_sink sink s = end_walk sink (walk_sink sink s.pool.cells (entries s.pool.queue)) s

  update_info : Float → SinkInfo → ℕ → Option Entry → Pa → World → Pa × World
  unfolding informed news
  update_info F info p none s w = (s, w)
  update_info F info p (some e) s w = (
    record s { pool = modify T p (informed F info e) s.pool },
    if news F info e then kill (sigrtmin + pa_signal) w else w,
  )

  -- `pa_sink_info_callback` for the entry at `p`, but for the wake-up of the main loop.
  unfoldable pub pa_sink_info_callback :
      Float → Option SinkInfo → (eol : ℤ) → ℕ → Pa → World → Pa × World
  unfolding update_info
  pa_sink_info_callback F none eol p s w = (s, w)
  pa_sink_info_callback F (some info) eol p s w =
      if eqb_ℤ eol (pos 0) then update_info F info p (s.pool.cells p) s w else (s, w)

  ask_default : Text → Option (ℕ × Pa) → Option Pa
  ask_default name none = none
  ask_default name (some (p, s)) =
      if s.accepts
      then some (record s { requests = s.requests ++ by_name (some name) p ∷ [] })
      else none

  unfoldable pub is_default : Text → Option Text → Bool
  is_default name none = false
  is_default name (some old) = text_eq name old

  -- `name` is the server's default sink.
  unfoldable pub server_info_callback : Text → Pa → Option Pa
  unfolding ask_default is_default pa_find_by_sink
  server_info_callback name s =
      if is_default name s.default_sink
      then some s
      else ask_default name (pa_find_by_sink none (record s { default_sink = some name }))

  ask_changed : ℕ → Option ℕ → Pa → Option Pa
  ask_changed index none s = some (record s { requests = s.requests ++ server_info ∷ [] })
  ask_changed index (some p) s =
      if s.accepts then some (record s { requests = s.requests ++ by_index index p ∷ [] }) else none

  -- `type & PA_SUBSCRIPTION_EVENT_FACILITY_MASK` (0x0f) is the remainder by 16.
  unfoldable pub pa_subscribe_callback : (type index : ℕ) → Pa → Option Pa
  unfolding ask_changed
  pa_subscribe_callback type index s =
      if type % facility_mask_plus_one == event_sink
      then ask_changed index (pa_find_by_index index s) s
      else some s
