-- ===== src/Common/Exclude/Laws.antt =====
-- Which paths a compiled set excludes.
use alloyfs.Base.Text.{Text}
