-- ===== src/Lib.antt =====
-- slstatus: a status monitor that fills the name of the X root window, or stdout, with the texts
-- of components, renewed at an interval and by signals that the components themselves raise.
--
-- The main program (slstatus.c, arg.h) is Bar: Bar/Options has the command line, with the macros
-- of arg.h around any switch in Bar/Options/Macros, Bar/Loop the rounds of `main` with nanosleep,
-- Bar.antt the handler and `printstatus`, Bar/Clock `difftimespec`. What the outside does in a
-- run is a script, a list of rounds: the clocks, the ends of each nanosleep, what callbacks and
-- threads change and the signals that they raise. The signal handler runs behind each call of a
-- component and each effect, for all the signals raised by then, in their order; it is not
-- modelled to run inside a component. The table `args` is a parameter there: each entry's
-- function gets and returns the state of the components and the World. Program/Config has the
-- table of config.def.h, over the state of all components, and Program/Run the program with it.
--
-- The utilities (util.c) are Util: World holds `buf`, standard error, the files that can be read
-- and the signals raised by kill. printf and scanf are those directives that the program uses,
-- over lists of bytes (Stdio); numbers are ℕ and ℤ of Prelude/Int, with the wrap-around of
-- uintmax_t and int written out. The type double is an interface with laws of IEEE 754
-- (Util/Float).
--
-- The components that watch devices keep entries in tail queues (queue.h) and find them by a
-- walk: Pool models this once, with the queue as an interface; its loops run on fuel for one
-- round more than the queue has entries. On it stand Upower (components/upower.c), Mm
-- (components/mm.c), Pa (components/pa.c), Nm (components/nm.c) and Backlight
-- (components/backlight.c); Ppd (components/ppd.c) has one text. Their libraries are what the
-- calls return, and calls back are functions on the state. A callback and the main thread do not
-- run in the middle of each other; but for the thread of backlight.c Backlight/Thread, and for
-- that of pa.c Pa/Thread, has both as steps, one access to what they share at a time, where an
-- insertion into the queue is one access. Program (slstatus.c) joins their states: `setup`, `tick` and `teardown`, and the
-- callbacks that are due as a list of events.
--
-- The other components make texts from files and system calls: Memory (components/ram.c), Swap
-- (swap.c), Battery (battery.c), Processor (cpu.c), Netspeeds (netspeeds.c), Disk (disk.c),
-- Volume (volume.c), Addresses (ip.c), Keymap (keymap.c), Indicators (keyboard_indicators.c),
-- Lines (cat.c, run_command.c, num_files.c, uptime.c) and System (datetime.c, entropy.c,
-- hostname.c, kernel_release.c, load_avg.c, temperature.c, user.c). Wifi (wifi.c) has the
-- messages of netlink as bytes: Wifi/Attributes the search for an attribute, on fuel for one
-- round for each byte, and Wifi/Perc the walk over a dump, on the same fuel; a step of length 0
-- is a loop without end there. Where the source tells systems apart the component itself is the
-- part for Linux, and its children Bsd, OpenBsd and FreeBsd are the other parts; Volume is the
-- part for ALSA, Volume/Sndio that for BSD systems, Volume/Oss that for the rest.
--
-- Nm/Connections replays the calls of nm.c to libgobject as the handlers that are connected.
-- Pool/Registry is the interface by which the lookups of the components meet a registry from
-- names to entries.
--
-- Not modelled: queue.h, freeing of memory where nothing depends on it, pa_wait of pa.c and the
-- two callbacks of mm.c that nothing uses, and the order in which GLib dispatches, which is a
-- list of events. That libnm may finalize an object to which an entry of nm.c points, with the
-- handlers on it, is left out too; so is what the end of a context of libpulse is due to: `accepts`
-- of Pa says whether there is one that takes requests, and a request without one ends the program.
mod Tests
pub mod Addresses
pub mod Backlight
pub mod Bar
pub mod Battery
pub mod Disk
pub mod Indicators
pub mod Keymap
pub mod Lines
pub mod Memory
pub mod Mm
pub mod Netspeeds
pub mod Nm
pub mod Pa
pub mod Pool
pub mod Ppd
pub mod Prelude
pub mod Processor
pub mod Program
pub mod Stdio
pub mod Swap
pub mod System
pub mod Upower
pub mod Util
pub mod Volume
pub mod Wifi
