-- ===== src/Llm.antt =====
-- The chunks of a model's answer, packages/ftre-llm/src/ftre_llm/events.py. A chunk of another
-- class, which the assembler refuses, is not a value here, and neither is a negative index.
pub mod Assembler
mod Tests
use ftre.Prelude.{ℕ, String, Option}
use ftre.Json.{Json, Fields}

pub record LlmFailure : Type 0 where
  pub message : String
  pub code : String

pub record FinishReason : Type 0 where
  pub kind : String
  pub failure : Option LlmFailure
  pub raw : String
  pub response_metadata : Fields

pub data Chunk : Type 0 where
  block_start : (index : ℕ) (block_type : String) → Chunk
  text_delta reasoning_delta : (index : ℕ) (text : String) → Chunk
  tool_call_delta : (index : ℕ) (call_id name arguments_delta : String) → Chunk
  block_end : (index : ℕ) (block : Fields) → Chunk
  usage : Option Json → Chunk
  finish : FinishReason → Chunk
