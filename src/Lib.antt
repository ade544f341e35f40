-- ===== src/Lib.antt =====
-- tonlib-rs: cells of the TON blockchain, their builder and parser, the bag-of-cells format, messages
-- made of cells, and the cache of transactions.
--
-- A cell holds up to 1023 bits and four references to other cells. `CellBuilder` writes its bits and
-- closes it with `build`, which calls `Cell::new`: that finds the cell's type, validates an exotic
-- cell, computes the level mask and, for each level, the hash and the depth. `CellParser` reads the
-- bits back. A graph of cells is stored as a raw bag of cells, `RawBagOfCells`, in which a
-- reference is the index of a cell.
--
-- The files, and the code that each is about:
--   * LevelMask            src/cell/level_mask.rs, `LevelMask`
--   * Cell                 src/cell.rs, `Cell` and its getters; Cell/Repr the bytes that are hashed
--                          (`get_repr_for_data` and what it calls), Cell/New `Cell::new` with
--                          `calculate_hashes_and_depths`; the rest are proofs: Cell/Data the data
--                          with its completion tag, Cell/Described the whole byte string,
--                          Cell/Standard the same against the layout of the standard, Cell/Heights
--                          the depth of a level, Cell/Ordinary ordinary cells over cells of level
--                          0, Cell/Trees whole trees of them
--   * Slice                src/cell/slice.rs; Slice/Bounds are proofs
--   * CellType             src/cell/cell_type.rs, `CellType`; CellType/Resolve the hashes and depths
--                          of a pruned branch and of the other types
--   * Address              src/address.rs, the structure `TonAddress`; Address/Codec the 36 bytes
--                          of its base64 form
--   * Builder              src/cell/builder.rs; Builder/Values integers, coins and addresses,
--                          Builder/Cells references, cells and `build`; the rest are proofs:
--                          Builder/Stores what it is to append bits, Builder/Uint, Builder/Build
--   * Parser               src/cell/parser.rs and src/cell/util.rs; Parser/Values coins, addresses
--                          and references; Parser/Loads what it is to read bits, Parser/Uint
--   * Trips                numbers and coins that go through a builder and a parser; Trips/Addresses,
--                          Trips/Bytes, and Trips/Built for the way through a built cell;
--                          Trips/References adds references, Trips/Cells closes the cell,
--                          Trips/Whole copies the bits of a cell, Trips/Either is the payload in
--                          place or behind a reference
--   * RawBoc               src/cell/raw.rs, `serialize`; RawBoc/Parse `parse`; the rest are proofs
--   * BagOfCells           src/cell/bag_of_cells.rs; BagOfCells/Index is
--                          src/cell/raw_boc_from_boc.rs, the numbering of the cells and
--                          `serialize`; the rest are proofs: Levels and Reached are about the loop
--                          that finds the cells, Order and Verify about the one that orders them,
--                          Entries and Sort about the index, Numbered about what comes of it,
--                          Rebuild and RoundTrip about the way back
--   * Message              src/message.rs, with Message/Transfer, Message/Jetton and Message/Setters
--                          for src/message/transfer.rs and src/message/jetton; the rest are proofs
--   * StateInit            src/cell/state_init.rs; StateInit/Account are proofs
--   * TransactionsCache    src/contract/latest_transactions_cache.rs; the rest are proofs: Chain says
--                          what the client is to serve, Batch is about one answer, Rounds and Sync
--                          about the loop, Newest about `load_new_txs` and `get`
--   * Libs                 the crates that are not in this repository
--   * Prelude              shared helpers: lists, binary digits, bytes, results
--   * Tests                crates that behave as documented, and runs of the model
--
-- How code becomes definitions:
--   * A method on `&mut self` is a function of the state that returns `ok` with a value and the new
--     state, `err` with an error and the state at that point, or `panic`, which stands for an index
--     or a slice out of bounds. The state of a builder or a parser is a record with the fields of
--     the struct; the texts of errors are dropped.
--   * bitstream_io, num_bigint, sha2 and crc are fields of the record `Libs`, which every
--     definition that calls them takes as an argument; the fields that are laws state their
--     documented behaviour. Tests/Crates fills the record.
--   * Integers are natural numbers, and wrap-around is written out as in a release build. An
--     `i32` is its bit pattern, below 2 ^ 32. A `usize` is unbounded where the code only counts.
--     Memory is enough: a `Vec::with_capacity` does not fail, however great the count that it is
--     given.
--   * `Arc<Cell>` is the cell itself. A cell's references are a list type of its own, and
--     the arrays of four hashes and depths are a type with four fields.
--   * The loop of `load_unary_length` runs on fuel, a round more than the bits that are left, since
--     each round reads one. The loop of `build` that writes zeros runs at most eight rounds, since a
--     byte boundary is at most seven bits away. The loop over the levels of a bag of cells has a
--     round for each cell on the longest chain of references, and the loop that orders the index
--     two more: after each round a further level has its final numbers. The loop of `load_new_txs`
--     has a round for each unit of the logical time it starts at and one for each halving of the
--     batch size, since every answer lowers the time.
--   * A `HashMap` is the list of its entries. The order in which `values` visits them is a parameter,
--     `Iteration`, of the definitions that depend on it.
--   * The client of the transactions cache is a function of the number of the call, the id and the
--     count, so that it may answer the same question differently at another time. An `async` call
--     is its result, and the lock is not modelled: `get` holds it from the first look at the cache
--     to the last.
--
-- Not modelled: the signed `store_i8` to `store_i64` and their loads, UTF-8 text, hexadecimal and
-- base64 text, the snake and dictionary readers of src/cell.rs, wallets, and all that talks
-- to the network or to the tonlib library but for the cache.
pub mod Prelude
pub mod Libs
pub mod LevelMask
pub mod Cell
pub mod CellType
pub mod Address
pub mod Parser
pub mod Builder
pub mod RawBoc
pub mod BagOfCells
pub mod Trips
pub mod Message
pub mod StateInit
pub mod TransactionsCache
pub mod Slice
pub mod Tests
