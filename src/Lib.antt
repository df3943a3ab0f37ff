-- ===== src/Lib.antt =====
-- A verification library for the database server: a B+ tree index, tables in text files, the
-- execution of SQL statements on them, HTTP requests, the queue and pool of threads that serve
-- connections, and the program that runs the statements of a file.
--
-- A statement is executed on a cache of tables. A table is loaded once: its schema and its rows are
-- read from two files, and an index from ids to file offsets is built. INSERT appends a row to the
-- file and its offset to the index; SELECT by id goes through the index, any other scans the file.
-- Connections are accepted by one thread, go through a bounded queue and are served by a pool. A
-- request is routed by its path, its SQL text is taken from a JSON body, tokenized and parsed, and
-- the statement is executed under a lock: SELECT loads its table under the write lock and reads
-- under the read lock, INSERT holds the write lock.
--
-- The files and the code they model:
--   Errors                   include/errors.h: status codes as results
--   BpTree                   src/bptree.c, include/bptree.h: `bptree_init`, `bptree_search`,
--                            `bptree_insert` with its splits; BpTree.Validate: `bptree_validate`
--   Ids                      src/runtime.c: ids as texts; the `snprintf` of an id, src/executor.c
--   Disk                     the files under the database directory; `build_table_path`
--   Storage.Lines            src/storage.c: `read_line`, also of src/schema.c
--   Storage.Fields           src/storage.c: escaping and splitting of a row's text
--   Storage.Table            src/storage.c: append, scan, read at an offset, read all
--   Schema                   src/schema.c: `load_table_schema`, `schema_find_column_index`
--   Runtime                  src/runtime.c: `build_id_index_for_table`, the cache of tables
--   Executor                 src/executor.c, include/ast.h, include/result.h: the statements and
--                            results; Executor.Select and Executor.Insert: their execution
--   Lexer                    src/lexer.c, include/lexer.h: SQL text to tokens
--   Parser                   src/parser.c: tokens to a statement; Parser.Print: its tokens
--   Json                     src/json_writer.c: `json_append_escaped_string`; Json.Buffer: the
--                            buffer and its capacity;
--                            src/json_parser.c: `parse_json_string`, and in Json.Field
--                            `json_extract_string_field`
--   DbApi                    src/db_api.c: the checks before the lock, the status of a reply;
--                            `trim_whitespace` of src/utils.c; DbApi.Turns: requests and the lock;
--                            DbApi.Body: the JSON text of a reply
--   Http                     src/http.c, include/http.h: `http_read_request` with its loops over
--                            `recv`; Http.Head: the request line and the headers; Http.Stream: the
--                            request that a whole text holds; Http.Limits: the sizes;
--                            Http.Response: writing a response
--   Server                   src/server.c: `server_handle_client_task` and its routes;
--                            Server.Client: a client from its bytes on; Server.Run: `server_init`,
--                            the accept loop of `server_run` and `server_destroy`
--   TaskQueue                src/task_queue.c: the ring buffer under its mutex
--   ThreadPool               src/thread_pool.c: the pool as a system of steps; ThreadPool.Join:
--                            `thread_pool_destroy`
--   Cli, Script              src/cli.c, src/main.c: the program that runs an SQL file;
--                            `read_text_file` of src/utils.c
--   ServerMain               src/server_main.c: the arguments of the server program
--   Prelude                  helpers; Tests: runs at concrete inputs
--
-- A C string is the list of its bytes, of which the NUL at the end is left out. A machine-width sum
-- keeps its wrap-around, `% 2 ^ 64`, but for the counts and lengths of what stands in memory, as the
-- count of a tree's keys. A node of the tree owns its children, so the parent and next
-- pointers are the nesting and the order. Memory does not run out, pointers are not NULL, and the
-- text of an error message is left out, or an argument where it is written. A path of the disk has
-- content or no file, or refuses to be opened; a file that is open takes every read, write and
-- seek. A critical section of a thread is one step, and the mutex and condition calls succeed.
--
-- The conditions that statements share. A table is well-formed (`HasRows`) if its file is missing or
-- can be opened, is empty or ends in a newline, and has only lines that parse to its rows. A cached
-- table is in step with its file (`IsCached`) if that file is well-formed, the table has an id
-- column, its tree comes of inserting each row's id with the row's offset, and the next id is over
-- every id, modulo 2^64. A tree is well-formed (`IsTree`) if its keys are ordered, the subtrees
-- lie between their separators, all leaves have one depth, no node but the root is less than half
-- full, and the count is that of the keys. A ring buffer is valid (`IsValid`) if head, tail and
-- count fit its capacity, below 2^62.
--
-- The scan of a file has one round of fuel for each byte and one more, since each line moves the
-- position forward. The digits of an id have 20 rounds, the length of UINT64_MAX. The loop over a
-- schema file has the same bound as a scan.
--
-- The lexer has one round for each byte and one more, and so has the loop over the entries of a
-- JSON object: each token and each entry takes a byte at least. The parser needs no fuel.
-- The capacity of a JSON buffer has 63 doublings, which take it from one byte to 2^63.
--
-- A loop that runs out of its rounds has an outcome of its own, `out_of_rounds` among the status
-- codes, which stands for a call that does not return; callers that put one status in place of
-- another pass it on.
--
-- `bptree_validate` is about trees whose parent and next pointers are those of the nesting
-- (`IsSearchRoot`): a node's range lies between the separators next to it, and is open at the ends.
--
-- A token array ends in TOKEN_EOF and has it nowhere else (`EndsEof`). A statement is as a parse
-- returns it (`IsParsed`) if an INSERT has a value, a SELECT has the star and no columns or columns
-- and no star, and a WHERE clause without a condition is empty. A request takes one turn at a time:
-- it waits for the lock, or does what stands between two calls of the lock. The lock is taken for
-- writing when nobody holds it and for reading when nobody writes, and taking it may also fail.
--
-- A socket is the list of what the calls of `recv` on it will do: bring bytes, bring none, be
-- interrupted, or fail; a call brings at most the bytes it asks for. The calls of `send` are such a
-- list too. `strtoull` is a parameter, of which it is assumed, where that is needed, that it reads
-- the decimal text of a number as that number (`ReadsDecimal`). A socket flows (`Flows`) if its
-- calls bring bytes or are interrupted until the end. The loops of a read have one round for each
-- of these and two more, as a call that leaves bytes behind brings all that is asked for; and the
-- loop over the headers has one for each byte of the text, as each line takes bytes. The calls on
-- the listening socket, and the creation of threads, succeed or fail as parameters say.
--
-- The loop over the statements of a file has one round for each token and one more, as each
-- statement takes a token. `strtol` is a parameter like `strtoull`.
--
-- Not modelled: src/result.c, which prints the results; usage and error messages of the programs;
-- the exit code of the server program behind `server_run`; src/benchmark.c, which measures times;
-- and the tests.
pub mod Prelude
pub mod BpTree
pub mod Ids
pub mod Errors
pub mod ServerMain
pub mod Storage
pub mod Disk
pub mod TaskQueue
pub mod ThreadPool
pub mod Schema
pub mod Script
pub mod Runtime
pub mod Executor
pub mod Tests
pub mod Lexer
pub mod Parser
pub mod Cli
pub mod DbApi
pub mod Json
pub mod Http
pub mod Server
