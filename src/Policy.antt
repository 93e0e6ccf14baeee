-- ===== src/Policy.antt =====
-- The policy path: the contract with the point of presence (Xdsv1), the compiler of a tenant's
-- policies (Compiler) and the enforcement point (Pep).
pub mod Xdsv1
pub mod Compiler
pub mod Pep
