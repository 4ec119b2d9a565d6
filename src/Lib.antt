-- ===== src/Lib.antt =====
-- fidrouter: the client that verifies an enclave before it sends a prompt, and the adapter that trades
-- a gateway key for a capability token.
--
-- The parts, and the files that model them. Paths are from the repository's root.
--   * sdk/python/fidrouter_verify.py, class FidClient: Client/State (the object, its constructor, its
--     requests), Client/Attest (`_attest_and_verify`), Client/Mock, Client/Tdx (`_verify_tdx`),
--     Client/Confidential (`_verify_cs`, `_cs_verify_jwt`), Client/Binding (`_tls_binding`),
--     Client/Infer (`infer`, `chat`), Client/Infer/Messages (how `chat` splits its messages, which are
--     any JSON) and Client/Infer/Reply (what `infer` does with the answer).
--     Client/Session is the object's lifetime: a sequence of calls, each in an environment of its own,
--     and the abstract protocol that it is compared with.
--     The object is explicit state, and a method that may raise is a function from it to a result and
--     the state that was left (Exec). Its requests are recorded in a log, in their order.
--   * the functions of the same file: Receipt/Escape (`_jstr`), Receipt/Canonical
--     (`_canonical_receipt`), Receipt/Verify (`verify_receipt`).
--   * sdk/python/dcap.py: Quote/Parse (`parse_tdx_quote`), Quote/Token and Quote/TrustAuthority (the
--     class IntelTrustAuthorityBackend), Quote/Policy (the other backends and `verify_tdx_quote`), and
--     Jwt, which the two token verifiers share. cli/fidrouter_cli/verify.py and dcap.py are copies of
--     the two files, but for one import.
--   * cp-adapter/validators.py: Adapter/Verdict (`Verdict`), Adapter/NewApi (`_newapi`),
--     Adapter/Gateway (`_http`, `_exec`), Adapter/Url (for which URLs a request can be made),
--     Adapter/Config (`from_env`, `quota_policy`).
--   * cp-adapter/adapter.py: Adapter/Token (`mint_capability`, `tenant_for`, the validity of a token),
--     Adapter/Server (the handler `H`), Adapter/Config (the settings). Adapter/Server/Bodies and
--     Sdk/OpenAi/Exchange put the bodies that a client writes before the handler.
--   * sdk/python/fid.py: Sdk/OpenAi (`_exchange`, `_resolve_expected`, the constructor of `OpenAI`) and
--     Sdk/Completion (`create` and the classes that wrap a completion).
--   * cli/fidrouter_cli/cli.py and mcp/server.py: Sdk/Tools (the check of an endpoint and of a receipt
--     against the public registry, which the two share) and Sdk/Commands (the call of each, and the
--     commands without a check).
--   * deploy/gcp/gcp.py: Deploy/Settings (`load_env`, `_clean`, `project`, `zone`, `region`),
--     Deploy/Account (the credentials, the assertion, what is made of an answer), Deploy/Gcp (`_sa`,
--     `token`, `api` and the three calls) over Deploy/Machine, which records what is done in its order.
--   * deploy/gcp/cs_provision.py, relaunch_cs.py and ratls_relaunch.py: Deploy/Provision, Deploy/Relaunch
--     and Deploy/Ratls, over what they have in common in Deploy/Launch.
--   * underneath: Base (tests, lists, exceptions, integers), Text (base64, hex, UTF-8, decimals, strip),
--     Json (the values of `json.loads`, how they are read), Json/Dump (`json.dumps`), Json/Scan and
--     Json/Loads (`json.loads`, as a machine that takes one character at a time), Env (what is not code of the
--     repository).
--
-- How Python is read. A `str` is its list of code points, a `bytes` its list of bytes, a `dict` of JSON
-- an association list. An exception is a value of `Error`; `type_error` stands for TypeError and
-- AttributeError alike. A message ends where a value would be interpolated that is not a text. A float
-- is its binary64 pattern, and what the code does with floats is a record of operations. Of `int()`,
-- `isdigit` and `lower` only the ASCII digits and letters are modelled.
--
-- Parameters, since their code is not in the repository: digests, signatures, key exchange and AES-GCM,
-- certificates, random bytes, the clock, the network, the subprocess of a validator, and
-- the certificate that a server presents (`_peer_spki`). An answer of the network is a function of the
-- request. The requests of the attestation service's backend are not in the client's log.
--
-- A document for `json.loads` is UTF-8, with or without a mark at its start; the limits of the
-- interpreter on its depth and on the digits of an integer are not modelled.
--
-- The deployment scripts run on a Machine. What it answers to a request, a command or the reading of a
-- file is a function of all that was done before, and so is its clock, which may move between two
-- steps. The environment and the directory that a command is given are not recorded.
--
-- Loops are structural recursion, over lists or, for the polls of the deployment scripts, over the
-- bound of the range that the source loops over, so there is no other fuel; every function is total.
--
-- Where the program goes on with a token or a pin that is no text, the command line and the MCP server
-- are not followed, and the model ends with the error `unfollowed`; a pin that is false is none.
--
-- Not modelled: the parsing of arguments; TLS contexts, and how the certificate that a server presents
-- is fetched (`_peer_spki`, a parameter); the server loop that calls the adapter's handler; the
-- self-test at the end of dcap.py; the tests and the example; the copies of the SDK beside the
-- command line, which the model of the SDK covers.
pub mod Base
pub mod Text
pub mod Json
pub mod Exec
pub mod Env
pub mod Jwt
pub mod Quote
pub mod Client
pub mod Adapter
pub mod Receipt
pub mod Sdk
pub mod Deploy
mod Tests
