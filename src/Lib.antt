-- ===== src/Lib.antt =====
-- Verification of r402, a Rust implementation of the x402 payment protocol. A server answers a request
-- without payment with status 402 and its terms; the client signs a payment for one of them and
-- repeats the request; the server's payment gate has a facilitator verify the payment, runs the
-- handler, and has the facilitator settle the payment.
--
-- Parts, and the files that model them:
--   r402/src/chain.rs: chain identifiers in Chain/Id, patterns of chains in Chain/Pattern (`matches`,
--     `from_str`, `to_string`), lookups of providers in Chain/Registry.
--   r402/src/proto: errors and reason codes in Proto/Error, answers and their wire forms in
--     Proto/Verify and Proto/Settle (`to_wire` and `of_wire` are the two `From`/`TryFrom`), terms and
--     price tags in Proto/V2, the routing of requests in Proto/Request.
--   r402/src/facilitator.rs: the interface that the other parts share, in Facilitator. A facilitator is
--     a record of three operations on a world; the world stands for the chain, the network and all
--     else that a call may read or change, and is passed from call to call.
--   r402/src/hooks.rs: the three phases around an operation in Hooks/Lifecycle, once for `verify` and
--     `settle`; the decorator in Hooks/Decorator. Hooks/Runs has the relation of the ways to end.
--   r402/src/scheme/registry.rs: slugs in Scheme/Slug, the registry in Scheme/Registry. A hash map is
--     an association list in its order of iteration; `register` returns the changed registry.
--   r402-http/src/server/paygate.rs: the gate in Http/Paygate, over the record Http/Platform of the
--     library calls that it makes (http, axum, base64, serde_json). Http/Paygate/Lifecycle has the
--     relation of the ways to handle a request.
--   r402/src/scheme/client.rs and r402-http/src/client: candidates, selectors and policies in
--     Client/Selection, the middleware in Client/Payment. Its hooks run by Hooks/Lifecycle too.
--   r402-evm/src/exact: types in Evm/Types, the check of validity times in Evm/Time, the checks before
--     a payment in Evm/Checks, over a record of the contract calls. Evm/Signature reads the bytes of
--     a signature (`try_from_bytes`), Evm/Calls has the contract calls and the provider's interface,
--     Evm/Simulation tries a payment against the chain (`verify_payment`), Evm/Settlement sends its
--     transaction (`settle_payment`), and Evm/Facilitator composes these (`verify`, `settle`).
--   r402-evm/src/chain: the table of nonces in Evm/Nonces, the signers' turns and the sending of a
--     transaction in Evm/Provider (`next_signer_address`, `send_transaction`).
--   r402-http/src/server/facilitator.rs: the client of a remote facilitator in Http/Remote. The cache
--     that its clones share is a part of the state that `supported` reads and returns.
--   r402-svm/src/exact: transactions, errors and the configuration in Solana/Types, the checks of
--     instructions in Solana/Checks, verification and settlement in Solana/Facilitator.
--   r402-mcp/src/server.rs: the wrapper that has a tool's calls paid in Mcp/Server (`process`, whose body
--     up to the early returns is `paid_call`), with its types in Mcp/Types, over the record of what it
--     calls of serde_json. What a client reads from a call's result (extract.rs) is in Mcp/Extract.
-- Base has what these share: results and actions with bind, keys with equality, lists over native
-- numbers, and the library routines on texts that the source uses. Tests has the concrete inputs.
--
-- Numbers are natural numbers. A u64 sum keeps its wrap-around (`add_u64`); theorems on times
-- assume that the clock and the tolerance fit together. Amounts (U256) are only compared. Loops
-- are recursion on lists, so no fuel is needed. A text is a list of characters; `trim` knows the
-- white space of Unicode. A panic of `expect` is the result `none`. Where
-- concurrent reads fail together, a Boolean says whose error is returned.
--
-- What the code calls of alloy, of Solana's crates, of reqwest and of serde is a record of parameters:
-- cryptography, encodings, simulations and transactions. The reads of contracts that precede a
-- payment see one state of the chain.
--
-- Not modelled: the MCP client, the clients that sign for EVM chains and for Solana, money amounts,
-- the layer that installs the gate, the connection of the providers, and the tables of
-- networks. A panic of a library on an index out of range is not modelled.
pub mod Base
pub mod Chain
pub mod Proto
pub mod Scheme
pub mod Solana
pub mod Facilitator
pub mod Hooks
pub mod Mcp
pub mod Http
pub mod Evm
pub mod Client
pub mod Tests
