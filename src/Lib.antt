-- ===== src/Lib.antt =====
-- Verification library of fastparse, a parser of BGP UPDATE messages with a table of routes and an
-- output scheduler.
--
-- The input is cut into a chunk for each peer (Split). A chunk is parsed message by message (Parse):
-- the path attributes become a route (Attributes, AsPath, Route) in a buffer of the allocator (Alloc),
-- each prefix (Nlri) gets a reference (Bigtable), and the peer's entry for the reference changes (Rib).
-- A changed entry is offered to the table of best routes (Locrib), a new best route puts its reference
-- into the journal (Journal), and the scheduler (Phase3) drains the journal into UPDATE messages for
-- each group of peers (Serialize, System). Program is start-up and a pass over the whole input.
--
-- Which file models what, by the repository's paths:
--   Bytes        getw.h: loads, stores and byte swaps; a memory is a list of bytes
--   Nlri         nlri2.h: nlri_iter, nlri_count, build_nlri, nlri_get, nlri_list
--   Bigtable     bigtable.c: encode, decode, lookup_RIB, lookup_RIB64, lookup_bigtable; in
--                Bigtable/Threads the look-ups of several threads, interleaved
--   Journal      locribjournal.c: locribj_init, locribj_push, locribj_pull
--   Route        libupdates2.h: struct tiebreak, struct route, tiebreaker
--   AsPath       aspath.c: as_path_count
--   Attributes   bgpupdate.c: parse_attribute, parse_attributes
--   Alloc        alloc.c, alloc.h: the pools, the cache, alloc, dalloc
--   Serialize    bgpserialize.tpl and the three serialisers that include it
--                (Block, Find: the attributes behind a route as a list; Picked, Whole, Ibgp, Ebgp: what
--                is written)
--   Locrib       locrib.c under an entry's lock, and read_and_clear of phase3.h; in Locrib/Threads the
--                calls of several threads and the output that reads the journal, interleaved
--   System       the variables with static storage, and peergroup.h
--   Phase3       phase3.c: schedule_phase3; in Phase3/Output the messages that a call writes, which rest
--                on what Serialize/Law promises of a serialiser
--   Rib          peer.h, phase1.c, the rest of locrib, update_adj_rib_in of bgpparse.c
--   Split        bgpparse.c: split_buf
--   Hex          hex.h: toHex, printHex
--   Parse        bgpparse.c: parse_update, buf_parse_peer
--   Program      bgpparse.c, peer.c, peergroup.c: init, reinit, buf_parse; in Program/Main what main
--                does with its arguments, its passes and its last division
--   Prelude      numbers, lists, results and maps that these share
--   Tests        examples
--
-- Conventions. A computation returns `ok`, or the fault that ends it: an assertion, an access outside
-- its object, an operation that C leaves undefined, or a loop that the model's fuel did not let end.
-- Pointers into a memory are offsets, and the address 0 is NULL. Numbers are natural, with the
-- wrap-around of each C type written out. The machine is little-endian, as the byte swaps suppose.
-- What a function does while it holds a lock is one step. `locrib` reads a flag that it may not have
-- set; what it reads there is a parameter. Where it is taken to be `true`, with which nothing is pushed,
-- the flags and the journal stay in step (Rib/Pending), which the theorems on a whole pass rest on; in
-- Locrib/Threads it is any value, another one for each call.
--
-- Fuel. A prefix takes a byte at least and an attribute three, so the loops over them get a round for
-- each byte; the loop over messages takes its fuel from the caller, since a message may say that its
-- length is 0; the scheduler's inner loop gets one round more than its table has places, its outer
-- loop as many rounds as the journal has places.
--
-- Not modelled: timespec.c, which is another project's; other printing and the timing of the runs;
-- threads outside Bigtable/Threads and Locrib/Threads, whose steps are taken in the order of one
-- thread; the older files bgpserialize.c and phase3.c.old, which the build leaves out; a write to a file
-- that fails; the size of the slab that mmap gives.
pub mod Prelude
pub mod Bytes
pub mod Nlri
pub mod Bigtable
pub mod Hex
pub mod Journal
pub mod Route
pub mod AsPath
pub mod Attributes
pub mod Alloc
pub mod Serialize
pub mod Locrib
pub mod System
pub mod Phase3
pub mod Rib
pub mod Split
pub mod Parse
mod Tests
pub mod Program
