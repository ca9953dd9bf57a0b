-- ===== src/Lib.antt =====
-- Verification of MegaBasterd CLI, a command-line client for MEGA transfers.
--
-- The parts and their files. Paths are from the repository's root.
--
-- * Prelude (and Prelude/): shared names, Boolean tests, results and exceptions beside a state, and
--   what the program uses of Python's `str`. Json: the values of `json.loads`; a dict is the list of
--   its entries.
-- * Queue (src/megabasterd_cli/queue/models.py, schema.py, manager.py, errors.py): the transfer queue.
--   Queue/Model has the dataclasses and exceptions, Queue/Schema `validate_raw_item` and
--   `validate_unique_ids`, Queue/Codec `_serialize` and `_deserialize`, Queue/Store the lock, `_load`
--   and `save`, Queue/Lease what a method does to one job, Queue/Manager the methods. The state is the
--   file beside the fields of the object; a method returns its result or exception and the new state.
--   The modules below Codec, Store, Lease and Manager hold the proofs.
-- * State (src/megabasterd_cli/core/state.py): the resume state of one transfer. State/Model has
--   `TransferState`, State/Validate `validate_state_dict`, State/Store `load_state`, `_disk_guard`,
--   `save_state` and `clear_state`, State/Hex the hexadecimal MACs. State/Sound, Saving, Loading and
--   Resume hold the proofs.
-- * Chunks (src/megabasterd_cli/core/chunks.py): the plan of byte ranges, its count and its bound.
-- * Crypto (src/megabasterd_cli/core/crypto.py, and the MACs of chunks.py): Crypto/Primitives has what
--   is taken of AES, PBKDF2 and HMAC, Crypto/Base64 and Words the conversions, Wrap the key wrapping,
--   Keys the file keys, Mac the CBC-MACs, Derive the derivation of keys and the login hash, Attributes
--   the attributes of a file, PasswordLink the password-protected links.
-- * Integrity (src/megabasterd_cli/core/download_verify.py): the check of a finished file.
-- * Transfer (src/megabasterd_cli/core/download_transport.py and downloader.py): a download.
--   Transfer/Session has what the workers share, Fetch one attempt at a chunk (`fetch_chunk`), Alike,
--   Answered and Stepped what it does to the file and the state, Vouched any sequence of attempts, Copied
--   and Round the attempts at an endpoint that serves the file; Refresh the workers inside
--   `_refresh_url`, one critical section at a time; Quota `_get_with_quota_wait`; Run the rest of
--   `_run_claimed_download`, before and after the workers. Fetch uses the plan of Chunks, the state of
--   State, the check of RangeReply and the selector of Proxy; Run uses the check of Integrity.
-- * Resuming (src/megabasterd_cli/core/download_verify.py): the two checks before a download starts, of
--   the declared size and of the resume state.
-- * RangeReply (src/megabasterd_cli/core/range_validation.py): the check that a response is the
--   requested window of the file, its `Content-Range` expression included. RangeReply/Honored has the
--   description of the responses that pass.
-- * Proxy (src/megabasterd_cli/proxy/smart_proxy.py, selector.py): the pool of proxies with their
--   health, and the choice of each request. Proxy/Picks and Proxy/Health hold the proofs.
-- * Destination (`check_destination` of src/megabasterd_cli/proxy/connect_proxy.py): the destinations
--   that the CONNECT proxy forwards to.
-- * Splitter (src/megabasterd_cli/core/splitter.py): `split_file` and `merge_parts`. Splitter/Reading has
--   the block loops, Collected what a merge reads, Parts the parts that are written and read back,
--   RoundTrip and Merging the rest of the proofs.
-- * Upload (src/megabasterd_cli/core/uploader.py, upload_transport.py, upload_identity.py): Post has one
--   attempt at a chunk, Run the start of an upload and Identity its resume rules, Finish the renewal of
--   the slot and the end, Register the new node, Empty the file without chunks. Committed and Stepped say
--   what an attempt does, Recorded and Delivered what holds at every moment, Sent, Sealed and Registered
--   what is sent at the end, Round a round in which every worker returns, Fresh, Returned and Whole the
--   whole upload. Resumes, Kept,
--   Begun and Started say what an upload starts from. Slot is the abstract slot, which Refines relates to
--   the workers.
-- * Exchange (`decrypt_node` of src/megabasterd_cli/core/nodes.py): the keys of a file's node, with which
--   Exchange/Served puts Upload and Transfer together.
-- * Stream (src/megabasterd_cli/streaming/server.py): Range has the requested range, Pump the body that is
--   sent, Serve the request to the CDN and the answer. Pumped, Honest and Served hold the proofs.
--
-- A method of the queue runs under the file lock, and the methods of several processes are a sequence
-- of calls in any order. `save_state` and `clear_state` are one step each for the same reason.
--
-- An attempt of a worker at a chunk is one step of a download, and the attempts of all the workers are
-- a sequence in any order, whatever the retry decorator of the source makes of them: they write disjoint
-- ranges of the file, and change the state under a lock. An exception of the URL resolver is taken to be
-- none of `requests`. An upload is a sequence of such attempts and of renewals of its slot. Its session also
-- keeps what the endpoint and the API were sent, which the program does not: `delivered` and `registered`.
-- Python's `==` and truth of JSON values, the printed attributes, the hash of the source before and
-- after, and the answers of the API are the records `Values`, `Account` and `Run` of Upload, and the
-- answers of the CDN to the streaming server are `Upstream`.
--
-- Outside the development are the clock, the file system, locks, encryption and ISO-8601, the
-- checks of an upload endpoint, the draw of `random.choices` and Python's `int` and `str`. They are
-- fields of Queue.Platform, of State's `Texts` and `Disk`, of Proxy's `Moment`, of Crypto's `Primitives`
-- and `Loader` and of the records `Attempt`, `Run` and `Place`; a theorem names what it asks of them. A Python integer
-- that the program has checked to be at least 0 is a natural number.
--
-- Loops are functions of the list they walk. The loop of `iter_chunks` over chunks of 1 MiB runs on
-- fuel, the size of the file, of which each round uses at least one byte. The loop of `save_state`
-- runs on its five attempts, which is all that the source makes. The quota wait runs on as much fuel as
-- it has seconds, of which each round sleeps at least one, and its loop on the attempts that are left.
-- The splitter copies a part on as much fuel as it has bytes to copy, of which each block is at least one.
--
-- Not modelled: the API, the sockets of the CONNECT proxy and of the streaming server, the access check
-- and the limits of that server, link parsing, configuration, accounts, commands and terminal output;
-- of a download and an upload, their progress, speed and rate limit, and of an upload its lease and the
-- hash of its source.
pub mod Prelude
pub mod Json
pub mod Queue
pub mod Chunks
pub mod State
pub mod Proxy
pub mod Exchange
pub mod Destination
pub mod RangeReply
pub mod Resuming
pub mod Crypto
pub mod Integrity
pub mod Transfer
pub mod Splitter
pub mod Upload
pub mod Stream
