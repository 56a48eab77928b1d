-- ===== src/Engine/Request.antt =====
-- src/engine/request.rs: what an engine asks of its caller.
use iluvatar.Common.{ℕ}
use iluvatar.Errors.{Error}

-- `EngineRequest`
pub data EngineRequest : Type 0 where
  need_input : EngineRequest
  seek_and_read : (offset len : ℕ) → EngineRequest
  output_ready done : EngineRequest
  error : Error → EngineRequest
