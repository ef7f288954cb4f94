-- ===== src/Pipeline/Bootstrap.antt =====
-- pipeline/RedisPipelineBootstrap.h and RedisPipelineBootstrap.cpp: how a server is put together and started.
pub mod Versions
pub mod Families
pub mod Consumers
pub mod Components
mod Examples
