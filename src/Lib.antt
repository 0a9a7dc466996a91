-- ===== src/Lib.antt =====
-- A verification of the core of the OpenWrt demo packages: the traffic analyser `apptraffic`, the
-- voice assistant `voice`, the Wi-Fi probe `wifi-probe`, the Wake-on-LAN proxy `wol-proxy`, the remote
-- command daemon `shcmd` and the WebDAV bridge `dav-bridge`.
--
-- The traffic analyser reads packets from libpcap. A fragment of an IP datagram goes to a table that
-- puts datagrams together (apptraffic/src/ipreasm.c); a TCP segment goes to a reassembler of the
-- connection's first bytes (apptraffic/src/tcp_reasm.c), so that the header parsers
-- (apptraffic/src/proto.c) see a whole record. The voice assistant gives each sound frame to the
-- detector of voice/vad.c, which says when speech starts and ends, is started by the state machine of
-- voice/trigger.c, and signs its requests with voice/crypto.c and voice/crypto_sha256.c. The names
-- that the parsers find go to the caches of
-- apptraffic/src/dnsmap.c, which give each flow a name and an application; the flow's bytes are added up
-- in a table of apptraffic/src/main.c. The proxy
-- wol-proxy/src/wol-proxy.c relays Wake-on-LAN packets to the local network. The probe wifi-probe/src
-- parses captured Wi-Fi frames and keeps a table of the devices that it has seen. The daemon
-- shcmd/src/shcmd.c runs configured commands for requests over HTTP, with the caller's values put into
-- them. The bridge dav-bridge/src/dav-bridge.c, a CGI program, lists and receives files below one
-- directory and registers accounts.
--
-- Files:
--   Prelude   shared names, Boolean tests, lists, bytes, integers, and memory accesses that may fault
--   Buffer    the growth of a buffer, in both `ensure_cap` functions
--   TcpReasm  tcp_reasm.c: `feed`, `set_isn`, `prefix` (tcp_reasm_data), `mark_consumed`, ...
--     Capacity, Inv, Merge, Feed   the invariant;  Stream, Cover, Session, Delivery   the byte
--     stream and its delivery;  Reports   what a call reports
--   IpReasm   ipreasm.c: `feed` (ipfrag_feed), `find_or_create`, `age` (ipfrag_age)
--     Inv   the slots' invariant;  Place, Delivery, Age, Shadow   what happens to a datagram
--   Proto/Dns proto.c: `read_name` (dns_read_name), `parse_query`, `parse_response`
--     Safe, Position, Overread   accesses in range, positions, and the accesses out of range
--   Proto/Tls proto.c: `parse_sni` (proto_tls_parse_sni)
--     Safe      accesses in range, and the loop's rounds
--   Proto/Http proto.c: `parse_host` (proto_http_parse_host), `mem_find`, `matches_method`
--     Find, Fits   what the search finds, and the bound of the copied host
--   Dnsmap/Flow  dnsmap.c: the caches of flows;  Chain, Inv, Lookup  their invariant, and what is found
--   Dnsmap/Names dnsmap.c: the names of addresses;  Best  the name that is found
--   Dnsmap/Apps  dnsmap.c: the table of applications;  Entries, Order  what the table has
--     of the file, and the entry that is found
--   Dnsmap/Local dnsmap.c: this host's services and broadcast addresses;  Stale  what stays of them
--   Account   apptraffic/src/main.c: `flow_ingest`, `flow_expire`
--     Totals, Sums   a call as the lookup of a flow sees it, and calls in a row
--   Rules     l7.c: `l7_load` and `l7_match`
--     Hex, Order, Bounds   the digits of a magic, the line that decides, the bounds of a rule
--   Wifi      wifi-probe/src: Radiotap (radiotap.c), Body (probe.c), Frame (ieee80211.c, frame.c) and
--     Device (device.c);  Safe  accesses in range;  Body/Elements  a body and its elements
--     Device/Visits  the visits that are collected
--   Wol       wol-proxy.c: `handle`, a packet in the loop of `run`
--     Magic, Recent, Relay   the magic packet, the table of recent packets, what is sent
--   Trigger   voice/trigger.c: `step`, a byte, a level or a child in the loop of `trigger_run`
--     Overlap   no two dialogues at a time
--   Profile   voice/profile.c: `profile_load`, `profile_extract`, `profile_to_prompt`
--     Bounds, Prompt   the arrays of a profile, and the buffer of its text
--   Crypto    voice/crypto.c, voice/crypto_sha256.c: Words (macros and bytes), Sha1, Md5, Sha256, Base64
--     Stream    the buffering of the three hash functions;  Blocks, Absorb, Digest   its theorems
--     Digests   the theorems of the hash functions and of HMAC;  Base64/RoundTrip  the decoding
--   Dav/Path  dav-bridge.c: `percent_decode`, `make_fs_path`, `print_href`, ...
--     Confined, Href   where an accepted path leads, and what a link leads back to
--   Dav/Reader, Dav/Upload  dav-bridge.c: `sr_peek`, ... and `sr_copy_until_boundary`
--     Peek      what the buffer holds;  First, Block   places of a pattern, and one turn of the loop
--     Copy, Malformed   what is written, and the answer to a body that was cut off
--   Dav/Multipart dav-bridge.c: `sr_read_line`, `sr_read_headers`, and the body of `op_upload`
--     Bytes, Upload   what the reader consumes, and a body that a client sends
--   Dav/Guard     dav-bridge.c: the checks of a path, `op_ls`, `op_delete`;  Link  links
--   Dav/Accounts  dav-bridge.c: `op_register`, `user_exists`, `append_htpasswd`
--     Lines, Register   the lines of the file, and what a registration changes
--   Shcmd/Access  shcmd.c: `ct_equal`, `token_ok`, `addr_allowed`;  Equal, Prefix  the comparison of
--     tokens, and of prefixes of addresses
--   Shcmd/Params, Shcmd/Json  shcmd.c: `param_get` and `json_escape`;  Json/Text, Json/Read  JSON's
--     reading of strings, and the output read back
--   Shcmd/Slot    shcmd.c: the substitution in `handle_client`;  Quote  a shell's view of a value
--     Template  templates;  Template/Room, Template/Expand   the buffer, and what a slot becomes
--   Shcmd/Request shcmd.c: `handle_client`;  Values, Words  the values of a request, the words of a list
--     Runs      when a command is run
--   Vad       vad.c: `init`, `process`, `frame_rms`
--     Sort, Inv, Limits   the sort of the noise values, the invariant, the time limits
--
-- A pointer to a struct that a function updates is a value that is passed and returned. Buffers are
-- lists of bytes; a NULL buffer is an empty list. The DNS, TLS and Wi-Fi parsers work in a monad whose
-- result is a value or a fault, where a fault is an access outside a buffer. Machine integers keep
-- their wrap-around where it can be reached: sequence numbers (`% 2 ^ 32`), counters, and the words
-- of the hash functions.
-- The allocator's answers and the clock are arguments of every call, without a hypothesis unless a
-- theorem names one. The square root of the C library is a parameter of `frame_rms`;
-- `fnmatch`, `atoi`, `inet_pton`, `strtol`, `htonl` and `ntohl` are parameters of what calls them, and
-- so are `realpath`, `access`, the success of `fwrite` and of `fopen`, and the output of openssl. What
-- `fread` returns is a list of pieces of any sizes.
--
-- Loops are structural recursion. Those on fuel: the doubling of a buffer's size has the size that
-- is needed as fuel, since each round adds at least one; the rounds of a DNS name and the loops over
-- questions and answers have the source's own bounds (ten rounds; the two counts of the header); the
-- loop over TLS extensions has the end of the extensions as fuel, and each round moves four bytes on;
-- the loop over the blocks of a message has the message's length as fuel, and each round takes 64;
-- the loop over the elements of a Wi-Fi body has the body's length as fuel, and each takes two bytes.
-- The loops over a path, over the lines of the password file, over the parameters of a query, the words
-- of a constraint and the text of a slot have the length of the text as fuel, and each round takes a
-- byte at least; `sr_peek` has the number of bytes that are wanted, and each round reads one at least;
-- the loops over an upload have the number of bytes left to read, and a round that goes on reads or
-- writes one; where the fuel ran out, the status would be `unfinished`, which no answer of the source is.
--
-- Not modelled: the capture of apptraffic (capture.c), its reading of conntrack and its database, the
-- database of wifi-probe, the voice services, the saving of the profile, and the command lines; of shcmd the configuration and the
-- lists, of dav-bridge the publishing of an upload, op=mkdir and the routes.
-- Calls of libpcap, SQLite, sockets and sound devices, and the web and chat clients, are outside the
-- model.
pub mod Prelude
pub mod Buffer
pub mod TcpReasm
pub mod IpReasm
pub mod Proto
pub mod Dnsmap
pub mod Rules
pub mod Wifi
pub mod Wol
pub mod Trigger
pub mod Vad
pub mod Crypto
pub mod Dav
pub mod Shcmd
pub mod Account
pub mod Profile
