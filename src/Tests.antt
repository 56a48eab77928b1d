-- ===== src/Tests.antt =====
-- Runs of the model on concrete inputs, and the theorems applied to them.
mod TarRuns
mod TarFields
mod TarEngine
mod IndexRuns
mod ArRuns
mod CpioRuns
mod ReaderRuns
