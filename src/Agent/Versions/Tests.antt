-- ===== src/Agent/Versions/Tests.antt =====
-- The theorems about the version clock at concrete inputs.
use alloyfs.Base.{◌≢◌, [], ◌∷◌, arith}
use alloyfs.Base.Text.{Text, chars, text_eq, text_beq_iff}
use alloyfs.Base.Table.{get}
use alloyfs.Proto.Path.{RelPath}
use alloyfs.Agent.Versions.{Versions, version_of, IsClock}

abbrev file_a : RelPath
file_a = chars "a"

abbrev versions : Versions
versions = record { versions = (file_a, 4) ∷ []; vclock = 6 }

versions-IsClock : IsClock versions
unfolding version_of get
versions-IsClock = record { behind = λ p. ground (arith, text_beq_iff file_a p) }

a-ne-b : ◌≢◌ {A = Text} (chars "a") (chars "b")
a-ne-b e = ground (arith, text_beq_iff (chars "a") (chars "b"))
