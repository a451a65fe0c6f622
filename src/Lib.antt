-- ===== src/Lib.antt =====
-- A model of the s3k monitor: a process that loads an app, decides by its signature whether it may
-- run, and then grants or denies the changes of memory permissions that the app's trap handler asks
-- for. Paths are from the root of the repository.
--
-- The parts, and the files that model them:
-- - S3k: the interface of the kernel (s3k.h of the submodule s3k), which both programs call. It is a
--   parameter: `S3k` names what is called, `S3k.Laws` the behaviour relied on (`Laws` for the calls
--   that change a table, `Quiet` for those that do not), and `S3k.Example` is a small kernel that has
--   it.
-- - Capman (common/capman.c): a cache of the kernel's table of capabilities, with the operations that
--   go through it. The state is `Caps`: the kernel, the array `caps`, and `ncaps`. Table has update,
--   get, move, delcap and the searches; Derive the four derivations; Process the calls on a monitored
--   process; Pmp the PMP register and the sockets; Replace `capman_update_pmp`; Dump the functions
--   that print the table. Coherent says when the cache mirrors the kernel's table; Search says what
--   the searches find; Frame says which calls of the kernel an operation makes.
-- - Codeauth (monitor/codeauth.c): `calc_sig` and `comp_sig`. AES-128 with its CBC-MAC
--   (monitor/aes128.c, a library that the project was given) is the parameter `Aes128`.
-- - Monitor (monitor/monitor.c): Parse has `parse_executable`, Setup `setup` and its parts, Loop
--   `loop` and its parts; Lifetime and Guarded are about any number of runs of `loop` behind `setup`.
--   The state is `Monitor`: the table and the variables of the file. `SECURITY` of config.h is the
--   argument `secure`.
-- - Altmem (app/altmem.c): the allocator of the app's heap. The state is `Mem`; `Altmem.Traces.Step`
--   is the abstract heap that it implements. Dump has `altmem_dump`.
-- - Print (common/altio.c): output to the UART. The state is `Uart`, the characters sent and the
--   reads to come; `Rendered` says what text `alt_printf` makes of a format and its arguments.
-- - App: the state is `App`, the table, the heap, the message buffer and the other variables. Trap
--   (app/trap.c) is the trap handler, which turns faults into requests to the monitor; Main
--   (app/app.c) has `setup`, which sets up what the handler relies on, and `loop`, which runs the
--   tests. `TEST_MASK` of config.h and the tests are arguments; Test (app/test.c) has the tests, over
--   the parameter `Machine` for the accesses that may raise an exception. The app and the monitor each
--   have their own state of the kernel; Trap/Exchange joins a request of the one and the reply of the
--   other by hypotheses that say that the words that arrive are those sent.
-- - Format (tools/app_format.c, tools/app_format_sig.c): the tools that put the section table and the
--   signature in front of an image, and the signature in front of code. `SIG_BROKEN` of config.h is
--   the argument `broken`. `format` and `format_sig` go from the contents of files to contents; Text
--   has `fgets` and `strtol`; Program has `main` of both, with the names of the files.
--
-- A function with effects is a `Run`: it takes the state and comes to `done` with a result and a
-- state, to `fault` where it accesses an array outside its bounds, or to `spin` where the rounds given
-- to a loop are used up. Numbers are natural numbers; additions and shifts that can leave 64 bits, the
-- casts to `uint8_t`, and the conversions between `int` and `uint64_t` are written out.
--
-- Rounds: a loop over an array recurs on the cells left. `altmem_init` has one round more than
-- `chunks` has cells, which is enough since a round writes a cell or faults. The loop over the
-- chunks of the heap in `setup_app` has three: the first chunk, the last one, and the test that
-- ends it; with one chunk the code's loop does not end. `loop` takes the number of rounds that it
-- may wait as an argument. `pad_loop` of the tools has as many rounds as the header has bytes,
-- and the loop of the app over its tests 33, one for each value of its counter.
--
-- The programs keep what is printed apart from the rest of their state: the messages of setup, loop
-- and the trap handler are left out of their models, and the functions whose work is printing
-- (Print, and the two Dump modules) are runs on the UART alone.
--
-- Not modelled: those messages and the messages of the tools; what the machine code that the tests
-- store does when it runs; AES-128; the start-up code, the linker scripts, the payloads and the
-- scripts of tools. They print, or run before or beside the programs.

pub mod Altmem
pub mod App
pub mod Capman
pub mod Codeauth
pub mod Format
pub mod Monitor
pub mod Prelude
pub mod Print
pub mod S3k
