-- ===== src/Lib.antt =====
-- Melang is a scripting language on top of the library Melon: Melon has the interpreter, the event
-- loop and the data structures, and this repository has the libraries that a script imports
-- (lib_src/) and the command line (melang.c). A library registers methods with the interpreter;
-- the interpreter calls them with the arguments in a scope, and they return a value, or NULL after
-- an error message.
--
-- Parts and files:
-- - Base: numbers, Boolean tests, lists measured by native numbers, bits; shared by all others.
-- - Script: what a method sees of the interpreter. `Value` is M_LANG_VAL_TYPE_*, `Env` is
--   mln_lang_symbol_node_search, `Result` a value, an error message with NULL, or a fault: a pointer
--   that is NULL, freed or out of bounds was followed.
-- - Register, Register/Ownership: the registration of a method that every lib_src/*/mln_lang_*.c
--   writes out (func_detail_new, val_new, var_new, arg_append, set_member_add and what is freed on
--   each early return), and the rules of ownership that its calls have to keep. A registration is a
--   function of the method's name, parameters and place; which allocation is granted is an argument.
-- - MsgQueue: lib_src/msgqueue/mln_lang_msgqueue_impl.c. The state is the set of queues, the heap of
--   timeouts, the "mq" resource of each context, the wait objects and the calls that other contexts
--   notice. MsgQueue/Args, Send, Recv, Timeout and Topics are the *_process functions, the timer's
--   handler and what they call, under the names of the source without the prefix mln_lang_. Each
--   returns `none` where the C follows a bad pointer. MsgQueue/Invariant and its children are about
--   how chains, heap, objects and contexts point at one another, MsgQueue/Delivery about who gets a
--   message, MsgQueue/Run about all interleavings of calls, timers, imports and ends of contexts,
--   MsgQueue/Armed about the timer being set, MsgQueue/Quiet about queues with waiters.
-- - Strings: lib_src/string/mln_lang_string.c. Strings/Hex (hex2bin, bin2hex), Strings/Integer
--   (b2s, s2b, int2bin, bin2int, real2bin, bin2real), Strings/Split, Strings/Join,
--   Strings/Capitalize, Strings/Replace, and Strings/Methods for the list of registrations.
-- - Libraries, Register/Import: the methods that each library under lib_src/ registers, as constants
--   (Libraries/Ciphers, Trees, Sys, Network, Tls, Sets), the calls that docs/lib/*.md show, with their
--   numbers of arguments (Libraries/Documented), and the function init that makes a library's
--   object and has its methods registered.
-- - Json: lib_src/json/mln_lang_json.c. Json has the values of the interpreter as a tree and the trees
--   of Melon's JSON, Json/Encode the walk from a value to JSON, Json/Decode the array made of it, Json/Melon
--   what is taken from outside, Json/Process the methods encode and decode, Json/RoundTrip the steps to
--   their round trip.
-- - Ciphers: lib_src/aes, rc, des and base64, one file each under Ciphers/.
-- - Digests: lib_src/md5, sha and prime; md5, sha1 and sha256 are one function of the digest.
-- - Sys: lib_src/sys/mln_lang_sys.c. Sys/Types is type, the is_* tests and the conversions int, real,
--   bool and str; Sys/Arrays is size, keys, merge, diff and key_diff; Sys/Properties is getter, setter and
--   has.
-- - Matrix: lib_src/matrix/mln_lang_matrix.c: mul and inv, array2matrix and matrix2array_exp.
-- - Http: lib_src/http/mln_lang_http.c. Http has what is taken from Melon and the data of a message;
--   Http/Parse is the method parse and parse_body_handler, Http/Create the method create with the loop of
--   its generator; Http/RoundTrip and Http/Bounds are about the two.
-- - Http/Https: https_request of the same file. A request in flight is mln_lang_https_state_t as a record;
--   `World` is the descriptor, the timer and the states that this method handles beside it, and `Io` is what
--   the calls of the system, of TLS and of Melon answer during one event. Http/Https/Send and Receive are
--   the functions that write the request and read the answer, Handlers the handlers of the event loop,
--   Submit the method itself, Settled, Steps and Reached the invariant of a request along all sequences of
--   events, Runs about one event, Body about a response with a body: the parser keeps the script's array,
--   which the code takes for the buffer of the response. What can be read behind the array's first pointer
--   is `memory` of `Io`, and `array_moved` of the state is by how much that pointer has been moved.
-- - File: lib_src/file/mln_lang_file.c. The state is the File objects, the tree "file_fd" of the context and
--   the descriptors that are open. File/Flags is what open makes of op and prio,
--   File/Flags/Wanted about what they mean, File/Calls the methods under the names of their *_process
--   functions; File/Keeps, Owns and Change are the steps to the invariant of
--   File/Run, File/Uses is about the descriptors that are handed to the system, File/Stale about a failed
--   open.
-- - The modules named Tests run the theorems on concrete states and arguments.
--
-- Numbers: a 64-bit integer is the natural number with the same bits, below 2 ^ 64, so a number from
-- 2 ^ 63 on is negative; a real is the 64 bits of the double. Times are microseconds modulo 2 ^ 64.
-- A requested allocation or timer may be refused at every place that asks for one (`Grants`, or a
-- Boolean of the function): a theorem without a hypothesis on them holds whichever fail.
--
-- Fuel: the loop of the timer's handler has one more than the heap has nodes: each round takes a node
-- off the heap or ends the loop. The loop of replace over the places of one key has one more than the
-- string has bytes: each round leaves a shorter string, unless the key is empty.
--
-- From outside, as parameters: the least node of Melon's heap (`Minimum`, of which `IsMinimum` says
-- that it is a node of the heap with the least key), the text of a value and the elements of an
-- array in `join`, the search for a key in `replace` (`Finder`), Melon's JSON trees and codec, the blocks
-- and buffers of its ciphers and digests, its primes, what read returns of a file, the name
-- of the set that an object is of, its comparison of two values, its arithmetic on matrices, and the
-- machine's conversions between integers, reals and texts.
-- For http also: Melon's parser and generator of messages and their table of headers, the texts of numbers,
-- TLS, sockets, the resolver and the event loop. Melon's reset of a message keeps its body handler and the
-- data of it; a handler that is set once is called at most once, and a timer fires at most once (`taken` in
-- Http/Https/Handlers). The events of a run are those of which `IsTame` holds (Http/Https/Steps): making
-- the text of the request and parsing the response follow no bad pointer, and where the response has a
-- body, as many bytes can be read behind the first pointer of the array.
-- For file also: the calls of the system, strerror, and Melon's rule that freeing a node of a tree hands
-- its data to the function given for that, here close.
-- Melon's red-black trees are functions from keys or lists in the order of an iteration, its chains are
-- lists.
--
-- Not modelled: the memory of messages and names that are freed with their owner (mq_free,
-- topic_free, msg_free); the creation of the interpreter's two resources, which is the start of a
-- run; the mutex that the timer's handler takes; methods of string whose work is one call of Melon
-- (strcmp, kmp, slice, trim, upper, lower and others); a file that never ends, in md5 and sha; an array
-- that holds itself, on which encode of json does not end; the conversions obj and array of sys, and its
-- calls of the file system, of processes, of the clock and of the output; what the methods of the
-- network, tls and mysql libraries do, which wrap sockets, system calls and Melon's event loop; the
-- variants of http and file for Windows; the
-- resources of a context that libraries make when they are imported.
pub mod Base
pub mod Script
pub mod Register
pub mod MsgQueue
pub mod Strings
pub mod Libraries
pub mod Json
pub mod Ciphers
pub mod Sys
pub mod Matrix
pub mod Digests
pub mod Http
pub mod File
