-- ===== src/System.antt =====
-- The program's shared state: the variables that the files of the program declare outside functions,
-- and the memory of the routes.
use fastparse.Prelude.{ℕ, Bool, Option, List}
use fastparse.Bytes.{Bytes}
use fastparse.Bigtable.{Bigtable}
use fastparse.Journal.{Journal}
use fastparse.Locrib.{Locrib}
use fastparse.Route.{Route}
use fastparse.Alloc.{Pools}
use fastparse.Serialize.{Serializer}

-- `struct peergroup`: a file is the messages written to it, oldest first, and NULL is `none`.
pub record PeerGroup : Type 0 where
  pub serialize : Serializer
  pub file : Option (List Bytes)

pub record System : Type 0 where
  pub pools : Pools
  pub words : ℕ → ℕ
  pub routes : ℕ → Route
  pub bigtable : Bigtable
  pub locrib : Locrib
  pub journal : Journal
  pub peergroups : List PeerGroup
  pub tx_buffer : Bytes
  pub over_length_detected : Bool
  pub propagated_prefixes : ℕ
  pub phase3_locked : Bool
  pub phase3_debug : ℕ
  pub received_prefixes : ℕ
  pub updates : ℕ
  pub update_prefixes : ℕ
  pub too_long : ℕ
  pub msg_count : ℕ
  pub unique : ℕ
