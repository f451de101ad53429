-- ===== src/Machine.antt =====
-- What the service runs on: the operating system, the document library, and what C leaves open.
use kb_pm.Prelude.{ℤ}
use kb_pm.CString.{Str}
use kb_pm.System.{Log, Env}
use kb_pm.Process.{Process}
use kb_pm.Process.Document.{CJson}

pub record Machine : Type 1 where
  pub env : Env
  pub json : CJson
  -- what a caller finds as the value of a function that ended without a `return`
  pub fallthrough : Process → ℤ
  -- what a local variable `process_s process` holds before it is written
  pub stack : Log → Process
  -- what a local buffer holds before it is written, up to its first zero
  pub stale : Log → Str
