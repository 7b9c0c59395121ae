-- ===== src/Lib.antt =====
-- A model of the programs of this repository, and theorems on it.
--
-- The programs are independent of each other.
--
-- Reservation: the seat reservation of pa3. pa3/pa3_server.c keeps three arrays (`Server` of
-- Reservation/Tables.antt: passwords and sessions by client id, owners by seat) and serves each
-- connection with a thread. `login`, `book`, `confirm_booking`, `cancel_booking` and `logout` are
-- translated one to one; an access outside an array is `none`. Reservation/Query.antt has
-- `handle_query` and `client_handler`, Reservation/Client.antt the test that pa3/pa3_client.c
-- makes of a query and what it prints for a reply, Reservation/Wording.antt a table of the texts
-- printed; Reservation/Dialogue.antt joins the loop of the client to the server. Reservation/Trace.antt takes the sections that the threads run under the
-- lock of a seat, from any threads and in any order, as steps. Reservation/Accepting.antt has `main`
-- of the server, whose threads share one variable with it, and Reservation/Options.antt `main` of
-- the client up to its connection.
--
-- Search: the word search of pa1. Search/Text.antt has the functions of pa1/mystring.c on the
-- bytes of a text up to its NUL, where a pointer into the text is an offset. Search/Index.antt has
-- `read_file` of pa1/main.c, which makes an index of the lines of a file through a buffer of 4096
-- bytes; Search/Input.antt has `resolve_input`, which tells the four kinds of query apart;
-- Search/Query.antt has `extractLine` and the four handlers, which read the lines through the
-- index and return the bytes that they print. Search/Number.antt has `int_to_string`. A call ends
-- with a result, with an access through NULL or outside an array, or without fuel
-- (Search/Run.antt). The loops over a text take one round more than the text has bytes, which is
-- shown to be enough where a theorem says that they end; `read_file` takes its fuel as an
-- argument.
--
-- Search/Main.antt has `main`, from the bytes of the file and the lines typed, which are read in
-- pieces of at most 4096 bytes, to the bytes written. The index and the words of a query are lists
-- there.
--
-- Chain: the doubly linked lists that pa1 and pa2 keep them in. Chain.antt has the operations of
-- pa1/linkedListStr.c, and `delete_all_node_idx` of pa1/linkedList.c, on a heap of nodes of any
-- kind, with NULL and freed nodes as faults; Chain/Links.antt says which sequence of nodes a list
-- stands for. Search/Index/Nodes.antt and Shell/Commands.antt have them for the nodes of
-- pa1/linkedList.c and of pa2/linkedList.c, and what `read_file` and `parse_pipelines` call of them.
-- The loops over a list take their rounds as an argument.
--
-- Shell: the shell of pa2/main.c. Shell/Pipelines.antt has `parse_pipelines`, which cuts a line
-- into commands, Shell/Command.antt `parse_command`, which cuts a command into words and the names
-- of its redirections by writing NULs into it, Shell/Stages.antt the loop of `main` that starts a
-- child for each command between pipes, Shell/Line.antt the rest of the loop, from the bytes of a
-- line to what is done, and Shell/Directory.antt `init_dir`. Processes start and wait in the order
-- of the loop; the program that `execv` gets, and the pipes and files that are its input and
-- output, are values.
--
-- PipeShell: the shell of week9/main.c, `make_tokens` and the loop of `main`, in the same way.
-- WordShell: the loop of week6/main.c, from its lines to the programs that it runs.
--
-- FileTransfer: the client and the server of week11, once connected. The pieces that the bytes
-- sent arrive in are arbitrary (`Delivered` of FileTransfer/Delivery.antt); what a file holds is a
-- parameter.
--
-- FileTools: the commands of pa2. FileTools.antt has the loops of pa2/head.c, pa2/tail.c, pa2/cat.c
-- and pa2/cp.c on the bytes of a file, and the arguments of head and tail;
-- FileTools/Commands.antt has `main` of these, of pa2/mv.c and of pa2/rm.c, on a disk that is a
-- function from names. The loop of cat and cp has a round for each byte and one more.
--
-- Signals: the sender and the receiver of week8/main.c, with their four handlers and the signals
-- that are pending between them, as a step relation.
--
-- Cron: the test of week7/cron.c whether the line of the crontab is due, from the bytes that are
-- read, and its loop, with the wait for the next minute. `strtok_r` gets a pointer there that is not
-- set; it is taken to be set.
--
-- MonteCarlo: the threads of week14/main.c that count points under a mutex, as a step relation in
-- which `count++` reads and writes in two steps. The numbers of `random_r` and the test of a point
-- are parameters.
--
-- Chat: the chat of week13. Chat.antt has the set of connections of week13/server.c,
-- `handle_new_connection` and `handle_client_data`, Chat/Loop.antt the loop over the sockets that
-- `select` finds ready, Chat/Server.antt the rest of its `main`; Chat/Client.antt has `handle_input`
-- and `handle_server_response` of week13/client.c, Chat/Client/Program.antt its `main`. The loop has
-- `fdmax + accepted + 1` rounds, which is more than the sockets below `fdmax`, also where a new
-- connection raises it.
--
-- BoundedQueue: the producer and the consumer of week15/main.c. BoundedQueue.antt has the circular
-- array, `put_data` and `get_data`, and a turn of either thread, from one wait on the lock to the
-- next; BoundedQueue/Threads.antt has the step relation of the two threads, in which a wait may
-- also end without a signal. The array is `malloc`ed: what it holds at first is an argument.
--
-- Messages: the chat of week10/main.c through a System V message queue. Messages.antt has a round of
-- the parent that sends and a call of the child that receives and acknowledges, down to the bytes
-- of a message, and the interface of the queue (`MessageQueue`: `msgsnd` adds behind the messages
-- of its type, `msgrcv` takes the first one of its type). Messages/Run.antt runs the processes of
-- two users in any order.
--
-- Prelude has the lists, options, integers and tests that these share, Libc what they rely on of
-- the C library: `%d` of printf and `strtol` in base ten (Libc/Decimal.antt), the `long` and the
-- `int` that are kept of a number that is read (Libc/Decimal/Casts.antt), `strstr`, `strcmp` and
-- `strtok_r` (Libc/Texts.antt). The types of week10 wrap around as an `int`. Other integers are
-- unbounded: client ids, seats and passwords are never computed with, and counters and offsets are
-- taken to stay below 2 ^ 31 (a file of more lines than that is not considered).
--
-- Not modelled: sockets, files and processes themselves, signals and process groups of the shells,
-- and pwd of pa2. A `read` delivers what it is given in full, but for week11.
pub mod Prelude
pub mod Libc
pub mod BoundedQueue
pub mod Chain
pub mod Chat
pub mod Cron
pub mod FileTools
pub mod FileTransfer
pub mod Messages
pub mod MonteCarlo
pub mod PipeShell
pub mod Reservation
pub mod Search
pub mod Shell
pub mod Signals
pub mod WordShell
