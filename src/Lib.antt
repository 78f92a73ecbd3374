-- ===== src/Lib.antt =====
-- pseudo runs a program under the illusion of root: a preloaded library sends every operation on a
-- file to a server, which keeps the owner, mode, device numbers and extended attributes that the
-- program believes each file to have in an SQLite database, keyed by path and by device and inode.
--
-- The parts, their files here, and the code that they model:
--
-- - Prelude: the library's names and Boolean tests, lists, C strings and integers that the others
--   share.
-- - Message: the message of pseudo_ipc.h with the enumerations of enums/*.in. A field is its bit
--   pattern. `path` is the buffer behind the header; a buffer may hold NUL bytes, and `c_str`
--   reads it up to the first.
-- - Db: pseudo_db.c on the tables `files` and `xattrs`. Column is the passage of C integers
--   through the columns (sqlite3_bind_int cuts to 32 signed bits), Tables the rows, Xattrs and
--   Files one function for each pdb_* operation, named without the prefix, from a message and a
--   database to a result code and a database. A SELECT is a filter on the list of rows; which of
--   several matching rows it steps to first, the SQL function replace, the order by name and the
--   choice of a row id are SQLite's and so a parameter, the record Tables.Sqlite with the
--   documented laws. `is_open` of the database tells whether get_dbs() succeeds; every operation
--   has the branch where it fails.
-- - Server: pseudo.c and the client table of pseudo_server.c. Context has the local variables of
--   pseudo_op and its first part, Lookup the searches and the sanity checks, Handlers one function
--   for each case of the switch over the operation, Respond the whole of pseudo_op and
--   pseudo_server_response. Clients is open_client and close_client, Serve has serve_client, and
--   Loop the loop over select: a round is decided by what select, accept and the messages say, and
--   signals come between rounds. Check is pseudo_db_check, for the options -C and -B. printf of a
--   number is a parameter.
-- - Paths: pseudo_fix_path of pseudo_util.c with what it calls, over any file system (lstat and
--   readlink are parameters). Elements cuts a path as the loop of pseudo_append_elements does, Fix
--   has the walk: the buffer is the text up to `current`. Nested links are followed 16 deep,
--   PSEUDO_MAX_LINK_RECURSION, and the walk is by recursion on that number and the list of
--   elements, so it needs no other fuel.
-- - Client: the paths of descriptors in pseudo_client.c, as two arrays (Descriptors; a negative
--   descriptor is a negative number), and base_path, which resolves a path for a wrapper (Base).
--   Then pseudo_client_op: Request has its arguments and the path buffer that it makes, Ignored
--   the ignored paths, Closing the descriptors that closefrom spares, Operation the library's
--   variables and the switch, and Send the whole of it with pseudo_client_request. The connection
--   is a parameter that says how each try ends; 250 tries, PSEUDO_RETRIES, end in an abort. Exec
--   is the search for a program in PATH, with the segments that it remembers, Users the
--   directories of the user files.
-- - Wrappers: ports/unix/guts, without PSEUDO_NO_REAL_AT_FUNCTIONS. A wrapper is the tree of its
--   calls (Calls): what it asks of the file system, each real call and each pseudo_client_op, with
--   a branch for every answer. Remove, Rename, Create, Link, Change and Open (openat is in
--   ports/linux/guts) have the wrappers, Access how a file is opened, Acl has shared_setxattr of
--   ports/linux/xattr with the reading of a POSIX ACL (low byte first) and with lstat64 and
--   fstat64, Modes the two mode macros of pseudo_client.h. errno is left out, and a path has been
--   resolved before.
-- - Values: the library's variables (pseudo_env of pseudo_util.c), over any process environment.
-- - Ids: the uids and gids that a program has, in pseudo_client.c, ports/uids_generic/guts and
--   ports/linux/guts. Decimal is "%d" of printf and scanf, State the ids and their variables,
--   Calls the calls that change them, Startup what pseudo_init_client takes from the environment.
-- - Environ: the environment of a program that is run (pseudo_util.c, as on Linux). Preload
--   searches LD_PRELOAD for the library, at most six times, Setup makes the environments for
--   ports/common/guts.
-- - Log: the modes that a query of pseudolog.c is given (Modes); Printed has the letters that ls
--   prints.
-- - Tests: a concrete instance of Sqlite, and runs.
--
-- Order, Find, Named, Orphans, Pending and Rename below Db, Known, Stat, Illusion, Unknown,
-- Created, Removed, ClientTable, LoopTable, Idle, Checked, CheckStep, SettledRows and Repaired
-- below Server, Corrected below Db, Walks, Contained, Inside, Dots, Names and Directories below
-- Paths, and Arrays, Bounds, Renaming, Refinement, Chroot, Split, Stored, Spared and Unsent below
-- Client, and Settled, Honest and AclMode below Wrappers, Within, Inherited and Executed below
-- Ids, Entries, Found, Shape, Handed and Lost below Environ, and Log/Printed, Values/Loaded and
-- the ends of Values, Client/Exec, Client/Users and Wrappers/Access hold theorems;
-- Client/Attributes has lemmas and the two requests, and Client/View the specification by
-- descriptors.
--
-- No fuel is used for the server: every function is by recursion on a list or a number. The jump
-- to op_exit in pseudo_op is a `none` that the rest of the function is skipped for.
--
-- Not modelled: failures of single SQLite statements (each only prints a message and returns 1),
-- the in-memory database and its backups, the log database and the rest of its queries, the build
-- option PSEUDO_XATTRDB, messages that are null pointers, the sockets of the server and its loop
-- over epoll, the rest of the client, the other wrappers with the code that makewrappers
-- generates, and the spawning of the server. `memcpy(oldmsg, msg, sizeof(msg) + msg->pathlen)` in
-- pdb_update_inode copies the size of a pointer only; what the fresh memory held is the parameter
-- `held`.
--
-- In the results, a plain request is one with a path that ends in no slash, a device and an inode,
-- of an operation with one path.
pub mod Client
pub mod Db
pub mod Environ
pub mod Ids
pub mod Log
pub mod Message
pub mod Paths
pub mod Prelude
pub mod Server
pub mod Tests
pub mod Values
pub mod Wrappers
