-- ===== src/Lib.antt =====
-- hathor-wallet-lib: the library that wallets use to build, sign, serialize and send transactions of the
-- Hathor network. This development models its byte formats and the choice of utxos.
--
-- The parts and how they interact: a transaction (src/models/transaction.ts) holds inputs and outputs
-- (src/models/input.ts, output.ts), which write themselves with the integers of src/utils/buffer.ts.
-- Headers (src/headers) extend a transaction: fees, minted and melted amounts, the balance of an
-- unshield. The arguments of nano contracts are values of a type; src/nano_contracts/ncTypes/parser.ts
-- makes a field of each type, and the field classes (src/nano_contracts/fields) write and read them
-- with the encodings beside them, among them LEB128 (src/utils/leb128.ts). Addresses (src/models/address.ts)
-- are checked by their checksum and version byte. src/utils/utxo.ts chooses what a transaction spends.
--
-- The files:
--   Prelude, Result: shared names, lists and integers over the native numbers, errors as values.
--   Buffer: src/utils/buffer.ts. A Buffer is the list of its bytes; int_to_bytes is intToBytes,
--     unpack_to_int is unpackToInt, output_value_to_bytes is outputValueToBytes. Buffer/Ints and
--     Buffer/Values hold the proofs.
--   Hex: Node's hex texts, hexToBuffer and unpackToHex of src/utils/buffer.ts.
--   Leb128: src/utils/leb128.ts. Digits has the reference in plain arithmetic, Encode and Decode
--     relate the loops to it.
--   Address: validateAddress of src/models/address.ts, encodeAddress of src/utils/helpers.ts.
--   Nano/Encoding: src/nano_contracts/fields/encoding. Nano/Fields: the field classes, from_buffer and
--     to_buffer over the types of Nano/Fields/Types; Simple has the fields of simple types, Typing the
--     values of a type, RoundTrip and its children the proofs, Reuse what a field does not read back.
--   Headers/Ids, Headers/Fee, Headers/MintMelt, Headers/Unshield: src/headers/types.ts, fee.ts,
--     mint_melt_entry.ts with mint_melt_header_base.ts, unshield_balance.ts.
--   Utxo: fastUtxoSelection and bestUtxoSelection of src/utils/utxo.ts. Outcome says what they
--     promise; Fast, Best and Smallest have the proofs.
--   Tx: Input, Output and Transaction of src/models, and Script, the parseScript of src/utils/scripts.ts
--     that reading an output calls; Items has their loops, RoundTrip the proofs.
--     Headers has the headers of a transaction over a table of header classes, Supported the table of
--     src/headers/parser.ts, Whole toBytes and createFromBytes.
--   Wallet: the wallet's accounts, in src/utils/storage.ts, src/utils/transaction.ts and the memory
--     store of src/storage. Maps, Types, Rules and Store have the data, with the reads and writes of the
--     store; Process and Caller are processNewTx, TxBalance is getTxBalance, Unlock processUtxoUnlock,
--     History the walk of processHistory, Single processSingleTx. Balances has the six counters of a
--     balance, Ledger one change of the accounts, Moves what a step adds to them; Credits, Debits and
--     Counts follow the loops, Accounts puts them together, Utxos has the keys of utxos.
--     Select is selectUtxos of the memory store and of Storage; Target and Payment compose it with Utxo.
--     Scan is saveAddress, loadAddresses and checkGapLimit; Notes and Gap have what they do together.
--     Cursor is what moves the current address: updateWalletMetadataFromProcessedTxData, the end of
--     saveTx and getCurrentAddress; Cursor.Within keeps it among those that are loaded.
--   Queue: PromiseQueue of src/models/promise_queue.ts (Tasks), over an interface of its queue of jobs
--     (Interface) that the heap of src/models/priority_queue.ts fills (Priority, Heap). Progress follows its
--     loops, Runs its life as steps.
--   Tokens: fees and the minting and melting of tokens, in src/utils/fee.ts and src/utils/tokens.ts. Fee is
--     Fee.calculate, Amounts the deposits and withdrawals, Data the data of a transaction. Pay is what
--     Mint (prepareMintTxData) and Melt (prepareMeltTxData) share; Mint.Balance and Melt.Balance add up
--     what they prepare. The selection of utxos is an argument; Storage has the default one.
--   Template: transaction templates, in src/template/transaction. Balance is TxBalance, Context
--     TxTemplateContext, Inputs and Outputs the instructions that add these, Complete the one that
--     completes a transaction, Run the list of instructions. What the interpreter asks of the wallet is an
--     interface. Amounts follows the amounts of tokens through the operations, Complete.Settled,
--     Complete.Balanced and Complete.Charged through a completion. Nano is the call of a nano contract. Ledger counts what the inputs and the outputs hold:
--     Places and Moves the places of tokens and the outputs, Steps the inputs, Instructions, Selections,
--     Completed, Whole and Actions the instructions, and Runs whole templates.
--   Tests: runs of the theorems at concrete inputs.
--
-- State is passed: a field's fromBuffer returns the value that it would hold, a transaction's get
-- methods take `this` and return it. What throws returns `err`. Bigints and numbers are integers; a
-- write into w bytes is taken modulo 256 ^ w where JavaScript does so.
--
-- Processing a transaction keeps what it wrote when it throws, so it returns its result with the store.
-- Addresses, token uids and transaction ids are only compared there, and are numbers.
--
-- Some loops have fuel. The encoder of Leb128 has one round for each unit of the value's size; each
-- round divides the size by 128, so it never runs out. The loop over headers has one round for each
-- byte; a header that is written takes at least two. The loops of the heap have a round for each element
-- and those of PromiseQueue one for each job that waits; one round more changes nothing.
--
-- Parameters stand for code outside the repository: SHA-256 (32 bytes), the UTF-8 codec (a text of a
-- round trip is assumed to survive it), the version bytes of the network, and the eight bytes of a
-- 64-bit float, the address of a public key, and lodash's `orderBy`. In Utxo, the utxos that storage
-- yields are an argument.
--
-- Not modelled: base58 (an address is its decoded bytes), the hash of a transaction, the header classes of nano
-- contracts and shielded outputs (arguments of the table), fromUser and
-- toUser of the fields, the parsing of type strings, signing, the decryption of
-- shielded outputs while a transaction is processed, the variables of a template and the arguments of a
-- nano contract call, the
-- wallet facades, the events and the timers of PromiseQueue, and all network I/O.
pub mod Prelude
pub mod Result
pub mod Buffer
pub mod Leb128
pub mod Address
pub mod Hex
pub mod Nano
pub mod Headers
pub mod Utxo
pub mod Tx
pub mod Wallet
pub mod Queue
pub mod Tokens
pub mod Template
mod Tests
