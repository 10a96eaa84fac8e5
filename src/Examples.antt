-- ===== src/Examples.antt =====
-- Concrete runs of the models, and the theorems at concrete inputs.
mod Escape
mod Talk
mod Routes
mod Filtering
mod Streams
mod Buffers
mod Parameters
mod ComPorts
mod HandFlows
mod Pins
mod Connections
mod Delays
