-- ===== src/Discovery/Run/Clear.antt =====
-- `Discover` of internal/engine/engine.go against the disabled names.
use facts.Base.Text.{Text}
