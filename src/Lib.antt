-- ===== src/Lib.antt =====
-- Verification library of TacLab, a TACACS+ and RADIUS lab server in Go.
--
-- The program's core parts are: a wire codec for TACACS+ (internal/tacacs/codec), protocol-neutral
-- types (internal/domain), a compiled authorization policy (internal/policy), the RADIUS stack
-- (internal/radius), the AAA service, state and configuration around them, and adapters. A TACACS+
-- connection reads a header, bounds and reads the body, removes the obfuscation, decodes the body,
-- asks the policy for a decision, and answers with the next sequence number; the session of
-- sequence.go says which packets may come. A RADIUS datagram is decoded within bounds, checked by its
-- authenticators and looked up in a retransmission cache. What happens is recorded in a ring of
-- events, which management clients read by cursor.
--
-- Files and what they model, one definition per Go function, named as in the source in snake case:
--   Common            shared names: Boolean tests (Common/Tests), lists over the native numbers
--                     (Common/Lists), the (value, error) pair with do blocks (Common/Fallible),
--                     Go's int where it may be negative (Common/Int), strings as lists of bytes
--                     (Common/Text), bytes and integers on the wire (Common/Bytes), facts about one
--                     byte (Common/Bits)
--   Tacacs/Errors     internal/tacacs/codec/errors.go: the sentinel errors
--   Tacacs/Constants  constants.go: wire values
--   Tacacs/Cursor     cursor.go and ascii.go: the bounded reader and the printable test
--   Tacacs/Header     header.go: header, body caps, packets; proofs in Header/Packet
--   Tacacs/Version    version.go: the START matrix; the table it is compared with in Version/Matrix
--   Tacacs/Args       args.go: arguments and their length table; proofs in Args/Laws
--   Tacacs/Authen     authen.go: START, CONTINUE, REPLY; proofs in Authen/Start, Continue, Reply
--   Tacacs/Author     author.go: REQUEST, RESPONSE; proofs in Author/Request, Response
--   Tacacs/Acct       acct.go: REQUEST, REPLY; proofs in Acct/Request, Reply
--   Tacacs/Sequence   sequence.go: the session and single-connect state machines; the transitions
--                     as events in Sequence/Order, single-connect in Sequence/Single
--   Tacacs/Chap       chap.go: CHAP and MS-CHAP data; proofs in Chap/Laws
--   Tacacs/Obfuscate  obfuscate.go: the pad and the exclusive or; proofs in Obfuscate/Involution
--   Domain/Error      internal/domain/error.go: errors without details
--   Domain/AvPair     internal/domain/avpair.go: pairs; proofs in AvPair/Laws
--   Policy/Types      internal/policy/types.go and part of internal/domain/enums.go
--   Policy/Compile    internal/policy/compile.go: the compiled engine, matchers, effective groups;
--                     the groups of a request in
--                     Compile/Groups, their order in Compile/Sorted
--   Policy/Response   internal/policy/response.go: replies and results; proofs in Response/Bounds
--   Policy/Evaluate   internal/policy/evaluate.go: evaluation; its specification without a trace in
--                     Evaluate/Decide, permits in Evaluate/Safety, trace lengths in Evaluate/Steps
--   Radius/Attribute  internal/radius/attribute/raw.go, set.go, decode.go, encode.go: attributes on the
--                     wire; proofs in Attribute/RoundTrip
--   Radius/Vendor     internal/radius/attribute/vendor.go: vendor attributes; proofs in Vendor/Cisco
--   Radius/Packet     internal/radius/codec: datagrams and their bounds; proofs in Packet/RoundTrip
--   Radius/Crypto     internal/radius/crypto: password hiding in Crypto/Password, the authenticator
--                     of replies in Crypto/Reply
--   Radius/Cache      internal/radius/udp/cache.go: the retransmission cache; its limits in
--                     Cache/Bounds, a slot's way from reservation to replay in Cache/Replay,
--                     the other slots in Cache/Others
--   Radius/Challenges internal/radius/runtime/challenge_store.go: the States of Access-Challenge; one
--                     State's consume in Challenges/Consume
--   Radius/Sessions   internal/radius/runtime/session_index.go: the accounting sessions that are live; its
--                     counts in Sessions/Counted
--   Events/Event      internal/events/ring.go: the stored event
--   Events/Ring       internal/events/ring.go: the ring, its sink and its subscribers; the places of
--                     the buffer in Ring/Window, the ring beside a list in Ring/Refine
--   Events/Read       internal/events/ring.go: reading by cursor; a client of pages in Read/Pages
--   Server/Dispatch   internal/tacacs/server/conn.go, handler.go: from one packet to its reply, with the AAA
--                     hook as a parameter; what every reply holds in Dispatch/Reply
--   Server/Stub       internal/tacacs/server/handler.go: the handler without AAA
--   Server/Conn       internal/tacacs/server/conn.go: the reader and the sessions of one connection; what
--                     each part of a turn keeps in Conn/Keeps, limits in Conn/Bounds, draining in
--                     Conn/Drain
--   Config/Network    what internal/config/match.go uses of package net; networks that contain one
--                     address in Network/Same
--   Config/Match      internal/config/match.go: the index of TACACS+ clients; the choice among
--                     candidates in Match/Pick, the check of all pairs in Match/Clash
--   Config/MatchRadius internal/config/match_radius.go: the index of RADIUS clients; its matches in
--                     MatchRadius/Unique
--   Api/Idempotency   internal/api/operations/idempotency.go: the replay of operations by key; how often
--                     the handler runs in Idempotency/Once
--   Tests             concrete runs, and the theorems at concrete inputs
--
-- Conventions. A byte slice is a list of numbers; `IsByte` bounds a number where a result needs it.
-- Nil and empty slices are both `[]`. A method that changes its receiver returns the new state. An
-- error is a value of the error type; Go's nil error is `none` or `ok`. Message texts of wrapped
-- errors are left out. A nil policy engine is `none`; every
-- other receiver is not nil.
--
-- Parameters. MD5 (crypto/md5) is an argument of the obfuscation, with outputs of 16 bytes, and
-- of RADIUS hiding and authenticators; SHA-256 (crypto/sha256) one of the cache's fingerprints and the
-- store's keys. Regular expressions (regexp) are a type with a match test, arguments of the policy.
-- net.ParseCIDR, net.ParseIP and strings.EqualFold are arguments of the client matchers; the networks
-- of normalized CIDR texts are masked and are no IPv4 networks in the form of IPv6. The AAA hook of
-- the server is a record of functions over its own state. The clock is a number in the engine, with 0
-- for Go's zero time, and an argument of the calls of cache, ring,
-- index and stores. The digests of idempotency keys and of requests are arguments too.
--
-- Fuel. The pad loop of obfuscation runs on the body's length: a round adds 16 bytes, so it is
-- enough. The walks over RADIUS attributes and vendor TLVs run on the bytes of the payload: a round
-- takes two bytes at least. Every other loop is structural.
--
-- Steps. Of a TACACS+ connection a round of a session's goroutine and the end of a goroutine whose
-- session was dropped are one step each. A round of the reader is one step, or two where it admits a
-- packet of a new session: up to its test of draining, and from there on, since it holds no lock in
-- between. The theorems hold for every order of these steps. A method that holds a lock is one step.
--
-- Not modelled: internal/policy's compiler and dictionary checks, the rest of internal/radius
-- (dictionary, Message-Authenticator, EAP, policy, handlers), the bridge and the engine of
-- internal/tacacs/server, the AAA service, state, the parsing of configuration, credentials,
-- observability and the rest of the adapters; sockets, TLS and user interface are I/O around the parts above.
pub mod Common
pub mod Tacacs
pub mod Domain
pub mod Policy
pub mod Radius
pub mod Events
pub mod Server
pub mod Config
pub mod Api
pub mod Tests
