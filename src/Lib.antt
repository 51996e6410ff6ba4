-- ===== src/Lib.antt =====
-- A simulator of an exchange: clients send orders over OUCH in SoupBinTCP sessions, a gateway checks
-- them and queues them for the matching engine, the engine runs them against one book per symbol
-- and answers the clients, and the books' events go out as ITCH messages in MoldUDP64 packets.
--
-- Files, and the sources whose definitions they model:
--   Types             src/common/types.hpp: prices, sides, symbols.
--   Common            shared names, Boolean tests, lists, maps, integers and machine words.
--   Endian            src/common/endian.hpp; Layout has messages as lists of fields.
--   Book              src/book/order_book.hpp: events, results, one execution.
--   Book/Priority     the contract of a book: a list of orders per side, in price-time priority.
--   Book/Reference    src/book/order_book.cpp: levels, index, add, cancel, replace; its children
--                     are about its invariant (Valid is check_invariants) and its contract.
--   FastBook          src/book/fast_book.cpp and fast_book.hpp: Pool has the orders and their links,
--                     Levels the ladder and the maps, Sides the cursors, Matching the loops, Handling
--                     the operations, Reading the sums and the snapshot; Chains, Links and Unlinking are
--                     about the links, Executing and Consuming about one level, Cursors about the scans.
--   FlatMap           src/book/flat_map.hpp: the hash map; its children are about probe paths, one
--                     write, the growth, the backward shift, a single call, the constructor, and the map
--                     as a function.
--   Ouch              src/ouch/ouch.hpp: Inbound and Outbound messages.
--   Itch              src/itch/itch.hpp in Market, Orders, Fills and Codec; src/itch/raw_itch.hpp in Raw.
--   Mold              src/mold/mold.cpp and mold.hpp: packetizer, parser, gap detector.
--   Soup              src/soup/soup.cpp and soup.hpp: Frames, Login, Session; Session/Ending is about its loop.
--   Gateway           src/gateway/gateway.cpp: handle_ouch, the listener of a connection, encode_ouch.
--   Client            src/client/ouch_client.cpp: dispatch.
--   Engine            src/engine/engine.cpp: Events has the listener calls, Handling the commands.
--   Feed              src/feed/feed.cpp: market events as ITCH messages in packets.
--   Ring              src/common/spsc_ring.hpp: the steps of the two threads; Held has the
--                     elements in the slots, Safety and Progress are about the steps.
--   Queue             src/common/queue.hpp.
--   Histogram         src/common/histogram.hpp: Buckets and Counting are about its values.
--   Capture           src/feed/capture.cpp and capture.hpp.
--   ItchBook          src/client/itch_book.cpp: the handlers and the snapshot; Rows, Steps and Replay are
--                     about one message, Rounds, Matching, Books, Following, Outcomes and Calls about
--                     the calls of a book, Integrity about a history.
--   Tests             runs and concrete inputs.
--
-- How the code is read. A price is a signed integer and a quantity a number below 2 ^ 32; sums in
-- 32, 48 and 64 bits keep their wrap-around. Bytes and chars are numbers below 256, a buffer is a list
-- of bytes, and a pointer into it is the list from there. `|` of shifted bytes that do not overlap is
-- `+`. Levels of the book are lists in the order of the maps; an iterator into a level's list is the
-- order's id. Listener calls of a book are a log of events. The engine's book is a record of
-- operations that return their events, which the engine's callbacks then handle in order: they never
-- call the book. The listener of a session is a record of functions on the session and a state of its
-- own. Outgoing queues are the lists of what was pushed, and the clock is an argument.
--
-- Loops are structural recursion over the lists they walk. Those over a parser or a file have fuel:
-- a round takes at least one byte, and the fuel is the length of the buffer and one more, or the number
-- of messages and one more. The flat map's loops have a round for each slot, since one is always unused;
-- its constructor has 60 rounds, after which the size of 64 bits is 0 and stays so: a loop that goes on is
-- `none`. An access past a buffer is written out as bytes of the memory behind it.
--
-- Not modelled: sockets, the poller, CPU pinning, the wall clock and the run loops of the threads, which
-- are the platform's; the programs under src/apps, which only call the library; for_each of the flat map,
-- check_invariants of FastBook, and symbols of the ITCH client book.
pub mod Common
pub mod Types
pub mod Endian
pub mod Book
pub mod FastBook
pub mod FlatMap
pub mod ItchBook
pub mod Mold
pub mod Histogram
pub mod Itch
pub mod Ouch
pub mod Queue
pub mod Ring
pub mod Soup
pub mod Gateway
pub mod Capture
pub mod Client
pub mod Engine
pub mod Feed
pub mod Tests
