-- ===== src/Lib.antt =====
-- KB-PM keeps a group of programs running: a service (src/server.c) holds the list of the programs
-- and their processes, saves it to a file, and serves the requests that a command-line client
-- (src/client.c, src/kbpm.c) sends through a local socket.
--
-- The parts, the files that model them, and the code they correspond to:
--   Prelude      shared names; integers, lists, and `Outcome`, what a call of a C function comes to:
--                it returns, the process exits or is replaced, or the behaviour is undefined
--   CString      C strings as lists of bytes without the final zero; strcmp, strcpy, atoi, sprintf
--   Utils        src/utils.c (`is_number`, `str_split`)
--   System       the operating system: a log of the calls that were made, and `Env`, which gives the
--                answer to each call from all that has happened before it
--   Proc         src/proc_status.c: children and memory from the texts under /proc
--   Process      src/process.h, src/process.c: the record of a program; Process.Kill (kill_process
--                and its recursion, exec_process, get_mem_by_pid), Process.Table (the array of
--                programs: get_process_list_count, del_process_by_app_name), Process.Json (documents
--                written and read), Process.Document (the interface of lib/cJSON.h, a parameter)
--   Machine      what a service runs on: an `Env`, a document library, and the values that C leaves
--                open (uninitialised variables, the value of a function that ends without a return)
--   Server       src/server.c: the globals process_list and process_count as `Server`; Server.Lookup
--                (parse_process_and_process_type and what it calls), Server.Control (starting and
--                stopping one program), Server.Requests (the handlers of the requests), Server.Wire
--                (the receive buffer), Server.Service (the loops of both threads, start-up, saving)
--   Server.Spec, Server.Contract    the abstract view: a list of programs, and for each request the
--                response and the new list
--   Proc.Lines, Proc.Children   the lines of a status file; a system whose processes are known, and what
--                the scan of /proc finds on it
--   Process.Family   which processes a recursive kill ends, and when it returns
--   Server.Entries, Slots, Deletion, Effects, Resolve, Invariant, Pointwise   lemmas for the proofs
--   Server.Refine, Sweep, Reap, Startup, Status   one request, all programs at once, ended children,
--                the start of the service, and the status
--   Proc.Signals, Process.Signals, Server.Signals   to which processes signals are sent
--   Server.Revival   a program whose process has ended
--   Server.Progress, Returns, Answers, Removes   when the start of all programs, a round of
--                waiting and the requests return, and which processes a stop ends
--   Server.Ids, Full, Wire.Exchange   ids that are shown and read back, a service with all slots in
--                use, the two messages of a client
--   Process.Stored, Process.Saved, Server.Restored   what is saved and read back, and the service
--                that starts on it
--   Server.Durable   a client is served, and the service dies and is started again
--   Server.Reach   the histories of the service, as steps of its two threads
--   Client       src/client.c: the commands, over `Terminal`, which is the socket, the files and what
--                C leaves open; Client.NewProgram (the document of a new program), Utils.Split (the
--                parts of a path)
--   StatusTable  src/box_drawing.c, src/ansi_escape.h: the table of `kbpm status` as the bytes that
--                are printed; StatusTable.Screen (how wide the lines are that a terminal shows), Shape,
--                Rows, Box (lines of one width), Limits (how many programs it takes), Elapsed (the time
--                shown)
--   Server.Daemon   create_config_file, get_config_path, init_daemon, ignore_signals, service_clean and
--                the making of the mutex and the thread; Daemon.SetUp (how these end), Server.Boot
--                (all that a start of the service does to the system)
--   CommandLine  src/kbpm.c: `main` and print_usage; CommandLine.Commands (the commands as a type, and
--                how they are written)
--   Session      the client and the service at the two ends of the socket; Session.Told (a request with
--                an argument), Session.Tool (a whole command, from the ping to the status),
--                Session.Restart, Session.NewProgram (a restart, and the start of a file)
--   Samples      a small system, a document library and services, on which the theorems are applied
--
-- Correspondence. An array is the list of its slots, a loop over an array walks the list with the
-- number of rounds left, and a write through a pointer returns the new value. Strings that do not
-- fit the destination of strcpy, reads and writes outside an array, a null pointer that is read
-- through and the missing value of a function are the outcome `undefined`. The integers of the
-- program are unbounded (`ℤ`); `atoi` keeps its 32 bits. `sprintf` into a response is not bounded.
--
-- Bounds and fuel. The array of programs has 256 slots (LIST_SIZE). The recursion of
-- kill_process_by_pid runs on `Env.depth`, which is enough when it is above the height of the tree of
-- the process that is ended (Process.Family). The digits of a number are printed with one round more
-- than the number.
--
-- Concurrency. Each thread of the service holds the mutex while it serves a request or handles an
-- ended child, so each of these is one step. The loop over the saved programs at the start does not
-- hold it, though the thread for the clients runs by then: `service_start` is one step during which
-- no client is served, and a client that comes so early is not modelled.
--
-- Not modelled: the messages for syslog; the socket; the closing of files and the mode mask of the
-- daemon; lib/cJSON.c, which is another project's library and enters as the parameter `CJson`;
-- freeing memory.
pub mod Prelude
pub mod CString
pub mod Utils
pub mod System
pub mod Proc
pub mod Process
pub mod Machine
pub mod Server
pub mod StatusTable
pub mod Client
pub mod CommandLine
pub mod Session
pub mod Samples
