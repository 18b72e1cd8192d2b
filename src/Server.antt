-- ===== src/Server.antt =====
-- server/server.go and server/drive.go: the state of the drive loop, one goroutine that owns it.
-- A response channel is a number, and `answers` are the sends to channels so far: each has room
-- for one value, so a second send to a channel would block the loop.
pub mod Waiters
pub mod Persist
pub mod Drive
pub mod Answers
pub mod AnsweredOnce
pub mod Start
pub mod Restart
pub mod Sent
pub mod Replica
pub mod Total
pub mod Waiting
pub mod Durable
use parallax_kv.Base.{
  ℕ, Bool, false, List, [], Bytes, Eq, ◌≡◌, ◌↔◌, ◌==◌, ◌&&◌, nat_eq, true, arith,
}
use parallax_kv.Base.GoMap
use parallax_kv.Base.GoMap.{GoMap}
use parallax_kv.Raft.Types.{ReadState}
use parallax_kv.Kv.Command.{Command, Result}
use parallax_kv.Kv.StateMachine.{StateMachine, new_state_machine}

pub record ClientKey : Type 0 where
  pub client_id : ℕ
  pub seq : ℕ

abbrev pub same_key : ClientKey → ClientKey → Bool
same_key a b = a.client_id == b.client_id && a.seq == b.seq

pub same_key_iff : (a b : ClientKey) → (same_key a b ≡ true) ↔ (a ≡ b)
same_key_iff a b = ground arith

instance abbrev pub client_key_eq : Eq ClientKey
client_key_eq = record { eqb = same_key; eqb_iff = same_key_iff }

-- The answer to a client request: a result, or where the leader is.
pub data OpResult : Type 0 where
  answered : Result → OpResult
  not_leader : ℕ → OpResult

pub record ReadWaiter : Type 0 where
  pub key : Bytes
  pub resp : ℕ

-- a request that submit has put into the loop's channel
pub data Request : Type 0 where
  propose : Command → ℕ → Request
  read_key : Bytes → ℕ → Request

-- the fields that the drive loop owns, with the state machine
pub record Server : Type 0 where
  pub sm : StateMachine
  pub applied : ℕ
  pub prev_leader : Bool
  pub read_token : ℕ
  pub pending_reads : List ReadState
  pub write_waiters : GoMap ClientKey ℕ
  pub read_waiters : GoMap Bytes ReadWaiter
  pub answers : List (ℕ × OpResult)
