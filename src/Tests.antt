-- ===== src/Tests.antt =====
-- Runs of the model at concrete inputs, and each theorem with hypotheses at an input that meets
-- them.
mod Requests
mod Responses
mod Application
mod Promises
mod Queries
mod Pools
mod Breakers
mod Services
mod Traces
mod Texts
mod Waiting
mod Routers
mod Loggers
