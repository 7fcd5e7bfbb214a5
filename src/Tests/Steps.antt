-- ===== src/Tests/Steps.antt =====
-- A run of a pod from its first state to `running`.
use krustlet.Prelude.{nat_eq, string_eq}
