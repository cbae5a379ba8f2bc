-- ===== src/Lib.antt =====
-- spawny: a daemon that starts greeters on the seats of a machine, and sessions for the users
-- that log in through them.
--
-- The parts, and the files that model them:
--  * src/sp-daemon/array.c, the growing array under every table: Array. `ptr` is a list of bytes,
--    and Array.Refine has the list of rows that the bytes stand for. The other parts use lists.
--  * src/sp-daemon/templatereg.c, the registry of session templates: Templates, with
--    Templates.Ids for the ids that it prints, Templates.Find for the search among them and
--    Templates.Laws for its operations.
--  * src/sp-daemon/desktop_common.c, tty_temp.c, x11_temp.c and wl_temp.c, which fill that
--    registry: Desktop, with Desktop.Ext for the names of the files, Desktop.Keys for their
--    entries, Desktop.Listed for the templates that they declare and Desktop.FireUp for what a
--    template executes.
--  * src/sp-daemon/spawnregistery.c, who is told when a child dies: SpawnRegistry. A handler is a
--    number; what a call of it does is a function `react` from the daemon's state to a new one
--    and to requests of this registry.
--  * src/sp-daemon/manager.c, the registered descriptors and the rounds over them: Manager, with
--    Manager.Marks for the taking out of entries and Manager.Rounds for a round.
--  * src/sp-daemon/spawnservice.c, the start of a session: Spawn. Spawn.Tty is `available_tty`,
--    Spawn.Child the steps of the child (`open_tty`, the settings, the messages), Spawn.Pam `pam_auth`
--    with what PAM reports meanwhile and the child's branch of `child_run`, Spawn.Job
--    the job and the waiting for it, Spawn.Conversation `_pam_conv`, Spawn.Parent the daemon's side of a try.
--  * src/sp-daemon/greeter.c, the greeter of each seat and its restarts: Greeter, with
--    Greeter.Restarts for one greeter, Greeter.Seats for the array of them and Greeter.Cycle for
--    a lockout with the death that it causes. It calls the spawn service and is called back by it
--    and by the spawn registry.
--  * src/sp-daemon/sessionmgt_logind.c, the questions to logind: Sessions.
--  * src/sp-daemon/server.c, the requests of the greeters: Server has `_client_data` and
--    `_session_done`, as the lists of what they call, Server.Access who may ask for what,
--    Server.Life the life of a client over many messages, Server.Locked a login that fails to
--    spawn, Server.Watched a client's descriptor in the manager, Server.Data `_load_data`, and
--    Server.Start the socket and the accepting of clients.
--  * src/sp-daemon/main.c: Daemon for the arguments, Daemon.Mode for what else reads them, and
--    Daemon.Main for the start, which calls most of the above, and the shutdown.
--  * src/sp-user-db/user_db.c, the user database: UserDb for the tables in memory, UserDb.Files
--    for the .ini files, UserDb.Api for the functions of user_db.h, UserDb.Sync for what
--    `user_db_sync` leaves. A directory is `tidy` if each
--    of its files that declares a user is named after that user.
--  * src/sp-user-db-util/user_db_util.c, which edits that database: UserDbUtil.
--  * src/libsp_client/client.c, the greeter's copy of the daemon's data: Client, with Client.Data,
--    Client.Fill and Client.Total for its conversion and Client.Read for the messages.
--  * src/sp-fallback-greeter/main.c, a greeter on the console: FallbackGreeter.
--  * src/sp-greeter-set and src/sp-greeter-start: Tools.
--  * src/util: Util, with Util.Paths for `mkpath`.
-- Two files put parts together: Greeting, what the daemon declares, tells a greeter and is asked by
-- it in return, and Login, a try from the child's reports to the client that asked for it, with
-- Login.Registered for what the manager and the spawn registry hold of it meanwhile, and
-- Login.Restart for the greeter that comes back behind the session.
-- Base has what these share, Examples the theorems at concrete inputs.
--
-- Choices: a file-scope variable is a field of a record that is passed on. An address that may be
-- NULL or freed has a constructor for each. `none` in the result of a function that can crash is
-- undefined behaviour. System calls, libc, libm, PAM, logind, inih and protobuf-c are parameters: a
-- record of what they answer. What protobuf-c makes of data on its way is a function under which
-- every element arrives, in order, with its strings, and NULL as some string (`IsCarried`), if the
-- message fits into the MAX_MSG_SIZE bytes that the client reads at once (`receive`). `unsigned int` has 32
-- bits and `size_t` 64, with their wrap-around in array.c and in the counter of templatereg.c;
-- allocation succeeds. An `int` whose value would leave its range is `none`: `INT_LENGTH` at INT_MIN,
-- the count of `template_get` and the reference count of `user_db_init`. An action of the server is a
-- call; that the part which is called faults on it is said by that part's function, as
-- `Greeter.greeter_lockout` does for a missing seat and `Greeter.activate` for a freed try.
-- Fuel: `cleanup` of the spawn registry gets one round more than there are entries, since a round
-- that finds nothing ends it; `available_tty` 65 rounds, since the counter rises in each up to
-- the last terminal; a restart of a greeter 7 nested activations, one for each generation and one
-- at each end; `template_shutdown` a round for each template and one more; `mkpath` one call for
-- each character of the path and one more, since the names of the directories get shorter. The
-- inner loop of `spawnregistery_eval` and the loops of `manager_run` get their fuel from the caller:
-- a round for each entry, those that handlers add included, and one to see the end.
--
-- Not modelled: the packing and freeing of messages in server.c and client.c, which protobuf-c does;
-- in spawnservice.c the framing of the messages; the waiting and the dummies of
-- sessionmgt_*.c; selftest, a list of system calls; the repository's tests. In greeter.c a
-- callback is given the index that its pointer still has in the array, or none where `realloc` moved
-- it (`greeter_died`); when `realloc` moves is not said. Of `spawnservice_spawn` the filling of the
-- try is left out: what matters to the caller is which of its three system steps fails.
pub mod Base
pub mod Array
pub mod UserDb
pub mod Templates
pub mod SpawnRegistry
pub mod Spawn
pub mod Greeter
pub mod Manager
pub mod Server
pub mod Client
pub mod Examples
pub mod Sessions
pub mod Greeting
pub mod Desktop
pub mod FallbackGreeter
pub mod UserDbUtil
pub mod Daemon
pub mod Login
pub mod Util
pub mod Tools
