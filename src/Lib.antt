-- ===== src/Lib.antt =====
-- ZmqProxy: a proxy between clients, which send requests to its front socket, and workers, which
-- send heartbeats and replies to its back socket. Both are ROUTER sockets of libzmq.
--
-- The parts of the program, and the files that model them:
--
--   src/zmq_server.cc, src/zmq_server.h
--     Server/State      the constants, `worker`, the members of `Server`, `s_clock`
--     Server/Setup      the constructor, with the endpoints that it binds
--     Server/Clock      what `s_clock` gives
--     Server/Registry   `MakeNewWorker`, `GetWorker`, `CheckWorker`: the list of workers
--     Server/Proxy      `Start`: one function for each branch of the body of its loop, composed by
--                       `serve` and `round`; `rounds` and `start` run the loop
--     Server/Spec       the abstract proxy: a map from the identities of the workers to their expiry
--                       times, and rounds that are traces of events (polls and what they find,
--                       messages in and out, readings of the clock), without lists, iterators,
--                       frames or messages of libzmq; the modules below it prove what holds of all
--                       traces
--     Server/Refines    how a run of `start` is such a trace: `view` is the map that a list of
--                       workers stands for, and `Traced` says that from one state to another just
--                       the events of the trace happen, in its order: the polls, the messages
--                       received, the readings of the clock and the messages sent, with an outcome
--                       for their frames (Zmq/Silent has the calls in between, which take no input)
--   src/zmq_addon.hpp   a bundled copy of cppzmq: `multipart_t`, the message that the proxy
--                       receives, changes and sends
--     Multipart/Deque     the operations on whole parts
--     Multipart/Content   the operations on the bytes of the parts
--     Multipart/Transfer  `recv` and `send` over a socket
--     Multipart/Outcomes  which frames of a message are accepted: all of them, or those in front of
--                         one that zmq_msg_send was called with last and gave up on; the proofs on
--                         the loop take `Sending`, what they need of `send`, for either outcome
--   src/zmq.hpp         the same
--     Zmq               the wrappers of libzmq that the two above call
--   src/ini.c           a bundled copy of rxi/ini, the reader of the configuration file
--     Ini/Buffer        the pointer loops over the file in memory
--     Ini/Split         `split_data`, which cuts the file in place
--     Ini/Get           `ini_get`
--     Ini/Load          `ini_load` and `ini_sget`
--     Ini/Format        the format of the file as a specification: its entries (sections, settings,
--                       comments and empty lines), what it looks like, and what a look-up is to
--                       find; the modules below it follow the code through a file of the format
--   src/main.cc
--     Main              `main`: the configuration, the server, its loop; the modules
--                       below it join the results on the configuration file and on the loop
--
-- The modules below these files hold the proofs. Cmd is the monad of the model: a piece of
-- code takes a state and returns a value, throws an exception, is undefined behaviour in C++,
-- or has run out of fuel. `Ensures P` says of a run that P holds if it returns; `Returns P`
-- says that it returns and that P holds; `Throws P` that it throws. Platform holds what the
-- sources call and do not contain: libzmq, the clock and the random numbers. It is a parameter
-- of every definition, with its documented behaviour in `MessageLaws`, in `Memory` for runs
-- without failing allocations and in `Reliable` for runs without refused frames as well. Where
-- frames may be refused, `Yields` says that each send is accepted or gives up with EAGAIN.
-- Host is the same for the files, the memory, `std::to_string` and the set-up of sockets, with
-- `HostLaws`, `Roomy` and `Opens`, and `Contains` for the content of a file. When the peers
-- send is left to them in two ways: `Fed` says that a socket that is read delivers a message,
-- since zmq_msg_recv waits for one, and `Readiness` says what ZMQ_POLLIN means, and nothing of
-- when it is set. The frames that libzmq accepted are recorded in the state, which is what the
-- results on sending speak of. Example is a platform that is a script, platforms whose peers
-- keep sending, one with boxes in which messages wait, and a host with one file, which meet
-- them; Tests applies the results to these.
--
-- Bounds and fuel. A time is an `int64_t` in milliseconds: a value that does not fit is undefined
-- behaviour in the model, and the results on times assume that the clock is in range. The receipt
-- of a message runs on fuel, since the sender decides the number of parts; a fuel of that number
-- is enough. The loop of `CheckWorker` runs on the number of workers, and the loops over the file
-- on any number above its length; that both are enough is part of the results. `Start` runs for a
-- given number of rounds, which is arbitrary.
--
-- The format leaves out what the reader repairs or takes as well: blanks around names and values,
-- quoted values, lines without `=`, and a last line without a newline; on those files the results
-- say that the reader is safe and ends.
--
-- Where the sources leave the C++ and C standards the model takes the plain reading. An iterator is
-- its place in the vector, so that `begin () - 1`, which `CheckWorker` forms where it erases the
-- first worker, is the place before the first. A byte is a number below 256 wherever it is read;
-- `tolower` is defined on all of them here, and on a platform with signed `char` the standard
-- leaves it undefined for the bytes above 127. An `int` has 32 bits: the size of the file is cut to
-- it, and the sum `sz + 1` is undefined where it overflows.
--
-- Not modelled: logging; the destructors and `ini_free`, which have no effect on what is modelled.
-- src/zmq.hpp, src/zmq_addon.hpp and src/ini.c are copies of libraries (cppzmq and rxi/ini) that
-- are compiled into the program: they are modelled as far as the results on the program rest on
-- them, and the rest of them is left out, which is most of src/zmq.hpp, the iterators and the self
-- test of `multipart_t`.
pub mod Prelude
pub mod Cmd
pub mod Platform
pub mod Host
pub mod Zmq
pub mod Multipart
pub mod Server
pub mod Ini
pub mod Main
pub mod Example
pub mod Tests
