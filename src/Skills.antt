-- ===== src/Skills.antt =====
-- internal/skills: the chained audit log (audit_chain.go).
pub mod Audit
mod Tests
