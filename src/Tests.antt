-- ===== src/Tests.antt =====
-- The theorems at concrete inputs, on the data of Tests/Data.
mod Data
mod Rows
mod Batches
mod Runs
mod Vectors
mod Pages
mod Workers
mod Codec
mod Http
mod Web
mod Extract
mod Pipelines
mod Config
