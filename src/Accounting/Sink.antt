-- ===== src/Accounting/Sink.antt =====
-- `OutputSink` of turnvector_benchmark/authority/compiler_accounting.py: a buffer of exactly the
-- candidate's size, filled by chunks. A chunk is the bytes of its view.
pub mod Chunks
use turn_vector_benchmark.Base.{
  ℕ, ◌==◌, ltb, not, Option, none, some, List, length, Result, ok, err, internal_error, Error,
  key_error,
}
use turn_vector_benchmark.Base.Bytes.{overwrite, zeros}
use turn_vector_benchmark.Base.Dict.{lookup}
use turn_vector_benchmark.Base.Int.{ℤ, pos, ltb_ℤ}
use turn_vector_benchmark.Base.Exec.{Exec, pure, lift, gets, modify, raise_when, ◌>>=◌, ◌>>◌}
use turn_vector_benchmark.Limits.{
  CompileLimits, attribute, coverage_plan_or_failure_max, output_streaming_chunk_max,
  checked_nonnegative_u64, checked_add, platform_size,
}
use turn_vector_benchmark.Accounting.Fault.{FaultInjector, before_modeled_allocation}

pub record OutputSink : Type 0 where
  pub buffer : List ℕ
  pub chunk_max : ℤ
  pub offset : ℕ

-- `if fault_injector is not None: ...`
abbrev pub maybe_inject : Exec (Option FaultInjector) (Unit {0})
maybe_inject none = (ok tt, none)
maybe_inject (some f) =
    let (r, g) = before_modeled_allocation "output-builder" f in
    (elim r [ ok n ↦ ok tt | err e ↦ err e ], some g)

-- `OutputSink(candidate_size, limits, fault_injector)`, on the injector's state
unfoldable pub new_sink : ℕ → ℤ → CompileLimits → Exec (Option FaultInjector) OutputSink
new_sink maxsize candidate_size limits = do
  n ← lift (checked_nonnegative_u64 candidate_size)
  m ← lift (platform_size maxsize candidate_size)
  let largest = attribute limits coverage_plan_or_failure_max
  raise_when (ltb_ℤ largest candidate_size) internal_error
  maybe_inject
  let chunk = attribute limits output_streaming_chunk_max
  pure (record { buffer = zeros n; chunk_max = chunk; offset = 0 })

unfoldable pub write : List ℕ → Exec OutputSink (Unit {0})
write chunk = do
  s ← gets (λ s. s)
  raise_when (ltb_ℤ s.chunk_max (pos (length chunk))) internal_error
  end ← lift (checked_add (pos s.offset) (pos (length chunk)))
  raise_when (ltb (length s.buffer) end) internal_error
  modify (λ s. record s { buffer = overwrite s.offset chunk s.buffer; offset = end })

unfoldable pub finish : Exec OutputSink (List ℕ)
finish = do
  s ← gets (λ s. s)
  raise_when (not (s.offset == length s.buffer)) internal_error
  gets (λ s. s.buffer)
