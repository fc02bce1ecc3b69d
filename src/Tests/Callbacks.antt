-- ===== src/Tests/Callbacks.antt =====
-- Inputs for the two threads of the PulseAudio sinks.
use slstatus.Prelude.{true, ◌≡◌, refl, false, [], none, some}
use slstatus.Prelude.Int.{pos}
use slstatus.Prelude.Text.{lit}
use slstatus.Pool.{empty, find_by}
use slstatus.Pool.Find.{IsLinked-empty}
use slstatus.Pa
use slstatus.Pa.Sink
use slstatus.Pa.Thread.{
  idle, System, line_step, server_step, here, then_step, line, server_info, sink_info,
}
use slstatus.Pa.Thread.Grows.{AreHeld}
use slstatus.Pa.Thread.Held.{Reaches-AreHeld}
use slstatus.Pa.Thread.Twice.{IsTwice, line-server_info}
use slstatus.Tests.{whole_numbers, quiet_world, list_queue}

abbrev Threads : Type 0
Threads = System list_queue

abbrev begun : Threads
begun = record {
  pa = record { pool = empty list_queue; default_sink = none; requests = []; accepts = true };
  main = idle;
  server = none;
  crashed = false;
  world = quiet_world;
}

nothing_found : find_by list_queue Sink.is_default begun.pa.pool ≡ none
unfolding find_by empty
nothing_found = refl

line-server_info_example : IsTwice list_queue begun (
    line_step list_queue none (
      server_step list_queue
        (lit "speakers")
        (server_step list_queue (lit "speakers") (line_step list_queue none begun))))
unfolding lit Pa.is_default
line-server_info_example =
    line-server_info list_queue (lit "speakers") (lit "speakers") none begun
      (IsLinked-empty list_queue) refl refl refl nothing_found refl

begun-AreHeld : AreHeld list_queue begun
begun-AreHeld = record { linked = IsLinked-empty list_queue; asked = tt; main = tt }

abbrev loud : Pa.SinkInfo
loud = record {
  index = 3;
  volume = 0x8000;
  mute = pos 0;
  name = lit "speakers";
  description = lit "Speakers";
}

-- Both lookups, and the information that comes for the first entry.
abbrev informed : Threads
informed =
    let s = line_step list_queue none (
      server_step list_queue (lit "speakers")
        (server_step list_queue (lit "speakers") (line_step list_queue none begun))) in
    let (pa, w) =
      Pa.pa_sink_info_callback list_queue whole_numbers (some loud) (pos 0) 0 s.pa s.world in
    record s { pa = pa; world = w }

Reaches-AreHeld_example : AreHeld list_queue informed
Reaches-AreHeld_example = Reaches-AreHeld list_queue whole_numbers begun informed begun-AreHeld (
    then_step _ _
      (then_step _ _
        (then_step _ _
          (then_step _ _ (then_step _ _ here (line none)) (server_info (lit "speakers")))
          (server_info (lit "speakers")))
        (line none))
      (sink_info (some loud) (pos 0) 0))
