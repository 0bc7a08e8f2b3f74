-- ===== src/Lib.antt =====
-- prom, a terminal hijacker that extends a shell: a model of its C sources and what holds of it.
--
-- The program runs a shell behind a pseudo terminal and traces it. Its parts are libraries that
-- build on one another, and each has a module here:
--   Errm        src/errm: an error code per thread and deferred calls. Each "edf" function has a
--               frame on a stack of twelve; static_defer copies its argument into the frame's
--               pool, defer keeps a pointer, and run_defers makes the calls when the function
--               returns. Errm/State holds the data, Errm/Ops one function per function or macro
--               of errm.c and errm.h; the four edf macros are edf_call round a body. Errm/Scopes
--               has bodies as data, run on that stack, beside a meaning that has no stack.
--   Dga         src/dga: arrays with a header in front of the elements. An array is the address
--               behind its header of 24 bytes; size_t arithmetic wraps round. Dga/Sequence has
--               the operations of a caller, on the array and on a list.
--   Logger      src/utils/logger.h: the lines that go to a log file.
--   Tracer      src/libtracer: tracer.c. Tracer/Env is what it sees of the kernel, the rest has
--               its functions: ReadString (read_string), Syscalls (syscall_openat and
--               handle_syscalls), Loop (tracer_init, tracer_loop, handle_stopped,
--               handle_sigtrap).
--   Filesystem  src/filesystem/filesystem.c, written with errm and dga: Filesystem (allocation
--               and paths) and Filesystem/Dir (dir_content and its loop).
--   Modules     src/modules/mods.c, on top of filesystem: Modules (paths, loading, adding and
--               removing) and Modules/Lists (listing and cleaning). Modules/Names, Grows and
--               Installs are about the loop of installed_mods and Modules/Installed about the
--               whole of it; Modules/Longer, Cleans and Cleaned are the same for
--               clean_ul_mod_names; Modules/Refused is about both when memory is refused, as
--               Filesystem/Dir/Refused is about the loop of dir_content.
--   Commands    src/prom-module.c, src/main.c and src/prom.c: the command line; Commands/Listing
--               and Commands/Cleaning are `prom module list`, without and with --clean, from the
--               directory to what is printed, and Commands/Removing `prom module remove`.
--   Examples    src/libtracer/examples: Examples/FileReads is a program that prints the files which
--               another one opens for reading, on top of Tracer.
--   Shell       src/shell and src/prom-shell.c: Shell/Desk holds struct global_state and what the
--               shell is built on, Shell/Terminal has the functions of terminal.c, Shell/Pty those
--               of pty.c, and shell.c is in Shell/Input (handle_arrows, handle_input), Shell/Master
--               (handle_output and the event loop master_process), Shell/Start (slave_process,
--               cleanup and shell_main_entry), Shell/StatusBar (set_status_bar, minimum) and
--               Shell/Callbacks (the callbacks for the tracer).
-- Tests runs the models on concrete inputs.
--
-- How code is modelled. A C function is a command (Machine): it takes a state and returns a value
-- in a new state, or ends by abort, by exit, in undefined behaviour (faulted), or out of fuel
-- (stuck). The state is Sys World for code that uses errm (the thread's errm, errno and
-- defer_stack beside the memory), World for dga, and Tracer for the tracer (its static variable
-- last_syscall and the list of what it has done), and Desk for the shell (struct global_state, the
-- keys to be read, the tracer and the list of the calls made). World (Memory) maps addresses to
-- live blocks; an access outside a block, through NULL or to a freed block is a fault. A new block
-- is placed at the next address, and whether a request is granted is a parameter, grants. A
-- block's elements and its string are values rather than bytes; its size is counted in bytes.
-- strcpy, snprintf, malloc, realloc and free are the C library's, as far as the code uses them. A
-- C string is the list of its bytes. A wrapper's messages on stderr are
-- left out; what the commands print is in the trace. The tracer has no files in its state: a
-- callback of the shell runs on the files as they then are, a parameter, and the tracer is given
-- its answer, or ends in undefined behaviour with it. Shell/Callbacks/Log has what a callback
-- writes.
--
-- Parameters. The kernel that the tracer asks is the record Env: each answer is a function of all
-- that happened before, so that a theorem for every Env covers every behaviour of the traced
-- processes. The file system, the dynamic linker and wordexp are the record Os
-- (Filesystem/System), whose answers may depend on the calls made before. The terminal emulator
-- libvterm is the record Vterm over any type of terminals; a function that updates the screen
-- hands out the calls of the callbacks that it makes. ncurses and the system calls of the shell
-- are the record Console. The init of a loaded module is code of that module and a field of Os.
-- Hypotheses about these are named in the theorems: a request is granted, the tracee's memory
-- holds a string, a module's init leaves the program's memory alone, or a descriptor takes all
-- that it is given.
--
-- Bounds and fuel. read_string loops until it finds a NUL or an unreadable word, which a tracee
-- need not have, so it runs on fuel, a unit for a word; more units than the string has words in
-- front of its NUL are enough. All other loops are structural: run_defers by the lengths of the
-- frame, the loops over arrays by their length, the loop of readdir by the entries of the stream.
-- handle_input reads keys and output on fuel, a unit for a round; master_process, which need not
-- end, runs for a number of rounds, and its theorems hold for every number. Lengths below 2 ^ 60
-- keep the arithmetic of the buffer from wrapping round.
--
-- Not modelled: src/dga/example.c, the example modules, the tests and the build files. The callbacks
-- struct of a loaded module is left out, since no code calls it.
pub mod Prelude
pub mod Machine
pub mod Errm
pub mod Memory
pub mod Dga
pub mod Logger
pub mod Tracer
pub mod Filesystem
pub mod Modules
pub mod Commands
pub mod Shell
pub mod Examples
pub mod Tests
