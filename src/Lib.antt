-- ===== src/Lib.antt =====
-- wallyd, modelled from its C source: the part that hands work from scripts and other threads to the
-- main thread, what that work does to the textures on the screen, and the program that shows pictures
-- while the system starts. A plugin exports functions by name; a call by name runs a synchronous function
-- at once, and posts a threaded one to the UI loop as an SDL event with a context of calls in a
-- priority queue; transactions collect the calls of a script in one context; and the functions that
-- are called change, among other things, the table of textures.
--
-- Parts, and where they are:
--   Wtx          lib/plugins.c, the contexts of calls: initWtx, newWtx, newSimpleWtx, pushSimpleWtx,
--                freeWtxElements, freeWtx
--   Registry     lib/plugins.c, the tables of functions: exportThreaded, exportSync,
--                wally_put_function, wally_put_function_list
--   Call         lib/plugins.c, the calls: callEx and those around it, callWtx, commitWtx, scall
--   Ui           lib/ui.c, eventFilter and uiLoop
--   Transaction  plugins/transaction.c, and js_startTransaction of plugins/js.c
--   Texture      lib/ui.c and plugins/sdlimage.c, the table of textures, the order of drawing,
--                renderActiveEx, and the colours by name
--   Image        plugins/sdlimage.c and lib/ui.c, the commands on a texture's colour, text and
--                picture, and fonts
--   Number       lib/util.c, getNumOrPercentEx, which reads the numbers of their parameters
--   Config       lib/util.c, getConfig, which reads the flags and the configuration
--   Replace      lib/util.c, replace
--   Command      src/wallyd.c, processCommand, which calls by the lines of a text
--   Gui          plugins/sdlgui.c, from the call of a script to the lines, boxes, pictures and texts drawn
--   Loader       lib/plugins.c, openPlugin, pluginLoader and cleanupPlugins
--   Starter      src/wallystart.c: GetLine (sgetline, logListener), ReplStr (repl_str), Screen, Fades and
--                Script (processCommand), Main (main); Alive and Shown are about these
--   Settings     src/wallyd.c, initializeFlags, initializeConfig and readOptions
--   Video        plugins/video.c and plugins/sdlvideo.c: Packets (packet_queue_put, packet_queue_get),
--                Decode (decode_thread and the threads that take packets) and Pictures (queue_picture,
--                video_refresh_timer, alloc_picture)
--   Client       plugins/client.c, wallyClientThread and setRegister, and what ssdpDiscovery of
--                plugins/ssdp.c writes of the location that they share
--   Common       lists, outcomes, C strings, int, strtol, and printf of an int
--   External     what is used of the hash table (lib/Hash_Table.c) and of the priority queue
--                (lib/pqueue.c), which are copies of other projects: records of operations and laws
--   Tests        a hash table and a queue that meet those laws, and each theorem at an input
--
-- State is passed explicitly. The fields of pluginHandler that a part uses are a record of that part:
-- `Registry`, `Contexts`, `PluginHandler`, `Screen` and `Settings`. An operation that may do what C leaves
-- undefined, or wait for a lock that nobody gives back, has a result in `Outcome`: `done`, `fault` or
-- `blocked`; `blocked` also stands for a loop whose rounds are used up. A mutex is a flag, for one caller:
-- to lock one that is held is to be blocked. Memory is modelled where contexts are freed
-- (`Contexts.live`), where the list of texture names is (`Prio`), for the textures and the log of the
-- starter (`Globals.live`, `LogText`), and for the packets of the video player (`Memory`); other memory
-- that is leaked is not counted. The addresses that malloc gives for contexts are any, so a block that
-- was freed may come again (`Contexts.next`, `Contexts.later`). Texts are lists of bytes without the zero.
--
-- The threads of the video player take turns in any order: a schedule is a list of steps, or a state
-- is one that they can come to. The loops of these threads are then rounds, one to a step.
--
-- A function that a plugin exports is a number, and what running it does is the parameter `run`. What
-- SDL does is a parameter as well: `timed_out` (a wait for a condition), `create` (a new texture), and
-- what each poll for an event gives is an input of the loop. Loops are structural recursion: the loop
-- over a context is bounded by the 512 places of its arrays, and one step further is a fault. The
-- loop of `replace` has fuel: a round for each byte of the text and one more are enough, unless the
-- text to look for is empty, when no fuel is. It is the same for the matches that `repl_str` looks for,
-- and processCommand gives it that; the loop over the lines of a client has a round for each line.
--
-- Not modelled: the pixels and the gradients, which are SDL's or computed with floating-point numbers;
-- log lines; the calls of dlopen, of sockets and of the operating system; pluginsInit; the other plugins
-- (gpio, wallaby and more) and the sockets of ssdp; what ffmpeg does for the video player, and its clocks, which are
-- floating-point numbers; plugins/persist.c, which calls functions that are
-- nowhere in the repository; lib/memfs.c and lib/sys.c. In Starter the thread of the log is taken on its
-- own, without what the main thread does to the log meanwhile.
pub mod Common
pub mod External
pub mod Wtx
pub mod Registry
pub mod Call
pub mod Ui
pub mod Transaction
pub mod Texture
pub mod Number
pub mod Config
pub mod Replace
pub mod Gui
pub mod Loader
pub mod Starter
pub mod Command
pub mod Settings
pub mod Image
pub mod Tests
pub mod Video
pub mod Client
