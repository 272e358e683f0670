-- ===== src/Lib.antt =====
-- A verification library of YeeZ-Privacy-Computing: how a data set is sealed into a block file, how
-- an analyzer enclave reads it, when it may, what it hands out, and how the enclaves talk to each
-- other.
--
-- The parts and their files:
-- Blockfile: include/ypc/corecommon/blockfile. Stream is std::fstream over a regular file (content,
--   position, eofbit, failbit). Codec has the structs written by `(char *)&x`. Tail is
--   blockfile_impl_r of blockfile_base_r.h: a record with the file, `m_header`, `m_block_infos` and
--   the two flags, and one function for each method; the members keep their names. A method that
--   throws ends in an `Error`, and so does one whose behaviour is undefined. Append has the
--   invariant of a file that is written, Items, Reading, Table, Closing, Session and RoundTrip what
--   is read back.
-- Sealed: `write_batch` and `seal_file` of toolkit/datahub/main.cpp (Writer),
--   sealed_data_provider.h, raw_data_provider.h (RawProvider) and `parser::next_data_batch` of
--   toolkit/analyzer/parsers/parser.cpp (Provider). It stands on Blockfile: `seal_file` appends
--   ciphers by `append_item`, `next_data_batch` reads them by `next_item`. Batches says without the
--   file what is written; EndToEnd joins both sides.
-- Analyzer: include/ypc/core_t/analyzer and include/ypc/corecommon/allowance.h. Keymgr is
--   `request_private_key_for_public_key`, Allowance is `check_allowance` with its policies, Algo is
--   `parse_data_item_impl` with `set_forward_target_info`. Sources is `init_data_source`,
--   `check_actual_data_hash` and `set_data_hash` on providers of Sealed, Results the classes of
--   internal/results, Model is `init_model`, and Wrapper algo_wrapper.h: the calls of the host in
--   terms of these. The model policy of a run is an argument; Model says which one `init_model` sets.
-- Parser: toolkit/analyzer/parsers/parser.cpp, `parse` and what it calls, on a record of the calls
--   of the two enclaves. Fed puts the wrapper of Analyzer behind them, as the macros of
--   include/ypc/core_t/analyzer/macro.h do; the key manager stays a parameter. Steps and Reported
--   have what is proved of it.
-- Channel: ypc/stbox/src/tsgx/channel. `send_request_recv_response` and `generate_response` of
--   dh_session.cpp on a session that has its key; Initiator is `create_session` of
--   dh_session_initiator.cpp, Responder the table of sessions of dh_session_responder.cpp.
-- Keymgr: the key manager's enclave, include/ypc/keymgr/default/ekeymgr.ipp. Policy is
--   `is_certified_signer` of ypc/core/src/core_t/ecommon/signer_verify.cpp, Forward the table of
--   private keys with `forward_private_key` and `handle_pkg`, Forwarded and Answers what is proved
--   of it. Sessions is the four calls on the responder of Channel.Responder, which asks Policy about
--   its peer and answers by `handle_pkg`, and Certified what is proved of them.
-- Hpda: include/hpda and hpda/src. Engine is the list of functors and the graph of
--   hpda/src/engine/engine.cpp, Upper a stream above a processor with the values it still has, Sets
--   the three processors of include/hpda/processor/set, one function for each method, Keys the same
--   on the keys of the streams alone, Stages filter, trim and concat, Sources raw_data.h and
--   split.h, and Group include/hpda/processor/transform/group.h. A column is a natural number; the
--   columns of a row that are copied are a parameter (`traits`, `filler`). `drain` is `engine::run`
--   on one processor above which only streams stand.
-- Bytes: hexadecimal digits, include/ypc/common/byte (Hex), and include/ypc/common/endian.h (Endian).
-- Version: include/ypc/common/version.h.
-- Status: include/ypc/stbox/stx_status.h and ypc/stbox/src/stx_status.cpp; the other parts return
--   its codes.
-- Base: the shared names, Boolean tests, lists measured by native numbers, and byte strings.
--
-- Numbers are natural numbers with the wrap-around of their C++ type written out. Loops recur on
-- what is left of their input, or on the number of rounds that the header states. `Hpda.Sets.drain`
-- and `keys_run` run on fuel, of which one more than the rows of all streams is enough, since each
-- round that goes on takes a row, and so does `raw_run`; `remove_loop` has one more than the functors,
-- and is `none` where it runs out; the number of calls that a caller makes
-- (`read_items`, `Sealed`'s `drain`) is an argument, which the theorems give.
--
-- Parameters: the cryptographic library and the package codec (Sealed.Library, Analyzer.Ecc),
-- AES-GCM and memory of the SGX SDK (Channel.Platform), its key agreement (Channel.Responder.Sgx),
-- the sealing by the device and the host's key files (Keymgr.Forward.Device), the plugin's reader as
-- the list of its answers, the session with the key manager as a function of the key asked for, how
-- ff reads a package (Keymgr.Sessions.Packages), and the algorithm that runs, with `std::sort`. What is assumed of them is a named hypothesis:
-- decryption undoes encryption, the codec reads what it wrote, `std::sort` sorts.
--
-- Not modelled: the block file with the header first (blockfile_base.h); of the key manager
-- `create_report_for_pkey`, the parsing of the policy and how ff reads a package; of include/hpda
-- `run` on a graph of several processors, `all_impl`, `memory_output_impl` and the extractor of web
-- pages; the JSON that the analyzer's host prints; `change_pubkey_endian`; the toolkits' command
-- lines; base64.cpp and base58.cpp, which are copies of other projects' code, and all vendored code;
-- and k-means, which computes with floating-point numbers.
pub mod Analyzer
pub mod Base
pub mod Blockfile
pub mod Bytes
pub mod Channel
pub mod Hpda
pub mod Keymgr
pub mod Parser
pub mod Sealed
pub mod Status
pub mod Version
