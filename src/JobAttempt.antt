-- ===== src/JobAttempt.antt =====
-- ai/pi/extensions/shared/job-attempt.ts: the identities, events and snapshots of an attempt of a
-- job, their schemas, and `decideAttemptEvent`.
-- A value has its TypeScript type already: a schema checks the ranges, the identifiers and which
-- status goes with which fields. The literal field `version: 1` is left out. `Schema.UUID` is code of
-- the package effect, so it is the parameter `is_uuid`.
pub mod Schema
pub mod Decide
pub mod Transition
pub mod Outcome
pub mod Store
mod Tests
use dotconfig.Base.{ℕ, Text, Option}

pub record Identity : Type 0 where
  pub job_id : Text
  pub attempt_id : Text
  pub fence : Text

pub record OutputReference : Type 0 where
  pub attempt_id : Text
  pub output_id : Text

pub data Usage : Type 0 where
  observed : ℕ → Usage
  unknown : Usage

pub data StopReason : Type 0 where
  user session_closed budget : StopReason

pub data FailureReason : Type 0 where
  blocked execution timed_out : FailureReason

pub data InterruptionReason : Type 0 where
  unconfirmed_exit owner_lost : InterruptionReason

-- The part of an event that depends on its `kind`.
pub data Body : Type 0 where
  pending running : Body
  output : OutputReference → Body
  stopping : StopReason → Body
  succeeded : OutputReference → Usage → Body
  failed : FailureReason → Usage → Body
  cancelled : StopReason → Usage → Body
  interrupted : InterruptionReason → Usage → Body

pub record AttemptEvent : Type 0 where
  pub identity : Identity
  pub event_id : Text
  pub sequence : ℕ
  pub occurred_at : ℕ
  pub body : Body

pub data Status : Type 0 where
  pending running stopping succeeded failed cancelled interrupted : Status

pub record AttemptSnapshot : Type 0 where
  pub identity : Identity
  pub status : Status
  pub sequence : ℕ
  pub terminal_event_id : Option Text

pub data EventReceipt : Type 0 where
  absent : EventReceipt
  recorded : AttemptEvent → EventReceipt

pub data Error : Type 0 where
  malformed stale_attempt stale_fence receipt_conflict out_of_order invalid_transition : Error
  foreign_output : Error

pub data Decision : Type 0 where
  duplicate : Decision
  appended : AttemptSnapshot → AttemptEvent → Decision
