-- ===== src/Common/Exclude/Tests.antt =====
-- The theorem about compiled sets at a concrete pattern, over globs that match themselves.
use alloyfs.Base.{true}
use alloyfs.Base.Text.{text_beq}
use alloyfs.Common.Exclude.{Globset}

abbrev same_globs : Globset
same_globs = record { builds = λ g. true; matches = λ g p. text_beq g.pattern p }
