-- ===== src/Lib.antt =====
-- Asterion, the C++ trading system under cpp: its order book and what stands on it.
--
-- The parts, and the files that model them:
--   * Prelude: numbers, signed integers, lists and maps that the other files share.
--   * Core (cpp/include/asterion/core, cpp/src/core): sides and the FNV-1a checksum.
--   * Book (cpp/include/asterion/book, cpp/src/book/order_book.cpp): the L3 book of one symbol, two
--     sorted maps from prices to queues of orders and an index from order ids to locators.
--     `OrderBook` is the C++ class; `add_order`, `cancel_order`, `reduce_order`, `replace_order`,
--     `find_order`, `best_bid`, `best_ask`, `best_order`, `total_quantity_at`, `l2_view` and
--     `checksum` are its methods, and a method that changes the book returns the new book beside its
--     result. Book/Queue models the `std::list` of a level, Book/PriceMap the `std::map` of a side.
--     Book/Valid states the representation invariant, Book/Calls a plain registry of orders.
--
--   * Matching (cpp/include/asterion/matching, cpp/src/matching): the matching engine of one symbol.
--     `MatchingEngine` is the C++ class, which owns an `OrderBook` and the states of all orders that it
--     accepted. Matching/Report and Matching/State model the reports and the states; Matching/Admit
--     models `crosses`, `can_fully_fill` and `would_self_trade`; Matching/Loop models
--     `match_against_book`; Matching/Handlers and Matching/Amend model `submit_order`, `cancel_order`
--     (`cancel_request` here) and `replace_order` (`replace_request`). A reference into `states_` is an
--     order id. The loop runs on fuel, one turn more than the book has orders: each turn takes an
--     order off the book or fills the incoming order, and Matching/Rounds shows that the fuel never
--     runs out first.
--   * Matching/Sound states the engine's invariant, Matching/Session the engines that requests reach,
--     Matching/Fillable relates the levels that `can_fully_fill` reads to those that the loop fills from.
--
--   * Broker (cpp/include/asterion/session/broker_session.hpp, cpp/src/session): the simulated broker
--     session. `SimulatedBrokerSession` is the C++ class; each event handler is a function of its name,
--     and the four transitions of one order share `transition`. The risk gateway that may be attached
--     is taken through the two operations that the session calls, `GatewayOps`; Gateway/Session fills
--     them. Broker/Trace has the calls and the step of a session, Broker/Moves its state machine.
--   * Portfolio (cpp/include/asterion/risk/portfolio_risk.hpp, cpp/src/risk/portfolio_risk.cpp): the
--     portfolio risk monitor. `apply_fill_to` returns what it adds to the realised profit beside the
--     position. Portfolio/Limits models `evaluate`; its three sums and its loop for the worst share are
--     functions of their own.
--
--   * Ring (cpp/include/asterion/concurrency/spsc_ring_buffer.hpp): the single-producer single-consumer
--     ring. Ring/Threads takes `try_push` and `try_pop` apart into their loads, slot accesses and
--     stores, and interleaves them. The acquire and release pairs make each store visible with what
--     came before it, which is what a step relation over one memory says.
--
--   * Gateway (cpp/include/asterion/risk, cpp/src/risk/risk_gateway.cpp and risk_audit.cpp): the pre-trade
--     risk gateway. `RiskGateway` is the C++ class. Gateway/Audit models the entries and the trail of
--     decisions; below it, Log writes an entry in both log formats, Parse reads a line back, Verify is
--     `verify_risk_audit_logs`, on what the file system gives for each path, and Rotation the log that
--     the gateway writes, where a parameter says what a path holds when it is opened.
--     Gateway/ClientOrderIds models the open-addressing set of accepted ids, Gateway/Working the
--     working orders by id, symbol and client, Gateway/Reports `on_execution_report`, Gateway/Shutdown
--     the kill switch and the disconnect, Gateway/Rate `rate_limit_allows`, Gateway/Admit
--     `check_new_order` and Gateway/Replace `check_replace_order`. The checks of a stretch of code stand
--     in a list in their order, and the first breached one decides. A loop over the buckets of the set
--     runs on fuel, one turn for each bucket: Gateway/ClientOrderIds/Probe shows that it visits every
--     bucket, and one is free. Gateway/Calls has the calls of a gateway, Gateway/Session puts the
--     gateway behind a broker session.
--
--   * Pooled (cpp/include/asterion/book/pooled_order_book.hpp, cpp/src/book/pooled_order_book.cpp): the
--     pooled order book. Pooled/FlatIndex models its index `FlatOrderIndex` from order ids to node
--     indices: open addressing, linear probing, tombstones. The loops run on fuel, one turn for each
--     entry; Pooled/FlatIndex/Path shows that they meet a free entry where there is one, and `insert`
--     makes room first, so that its call after a rehash of a full table is never reached.
--     Pooled/State has the levels, the node pool with its free list and the links of a queue, Pooled the
--     calls and Pooled/Reads the reads. A pointer to a level is its position, one to a node its index.
--
-- Conventions. A `std::map` is an association list in the order of its comparator, a
-- `std::unordered_map` an association list, walked in the order of its entries. A list iterator is
-- the id of the order that it points at. Signed 64-bit arithmetic is exact: overflow is undefined
-- in C++ and is left out. Unsigned hashing wraps at 2 ^ 64.
-- Sizes and capacities of containers are unbounded; a 32-bit count and a counter of orders wrap.
--
-- Not modelled: `check_invariants`, the checksum and `mutable_best_order` of the pooled book; the
-- market data replay with its events and the replay over the ring, the manifest of the risk audit
-- log, which are parts of their own beside these; the gateway's exposure snapshot and capacity
-- hints; the audit entries and the snapshot checksum of the portfolio monitor; and
-- printing and file input and output, real threads and their timing, the latency and benchmark
-- tools, the Python and dashboard code, which hold no trading rule.
pub mod Book
pub mod Broker
pub mod Core
pub mod Gateway
pub mod Matching
pub mod Pooled
pub mod Portfolio
pub mod Prelude
pub mod Ring
