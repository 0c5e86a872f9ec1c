-- ===== src/Guardrails.antt =====
-- guardrails/: claims against evidence, the policy floor and the critique.
pub mod Models
pub mod Tokens
pub mod Claims
pub mod Cited
pub mod Grounding
pub mod Support
pub mod FreeText
pub mod Policy
pub mod Flags
pub mod Critique
pub mod Floor
pub mod Clearing
pub mod Material
