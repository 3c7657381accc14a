-- ===== src/Responses.antt =====
-- src/awr/responses: the validation of the packets that executors and reviewers send.
pub mod Checks
pub mod Payload
pub mod Evidence
pub mod Packet
pub mod Bounds
pub mod Sizes
pub mod Limits
pub mod Accepted
pub mod Refused
mod Examples
