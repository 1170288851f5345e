-- ===== src/Admission.antt =====
-- Bounds on concurrent work: internal/admission/gate.go.
pub mod Gate
pub mod Counter
