-- ===== src/Client/Overlay/Tests.antt =====
-- The overlay on the sample file system.
use alloyfs.Base.{◌≡◌, refl, true, [], ◌∷◌, nat_eq}
use alloyfs.Base.Text.{chars}
use alloyfs.Base.Table.{get}
use alloyfs.Proto.Errors.{ok, err, bad_handle}
use alloyfs.Common.Action.{◌>>=◌}
use alloyfs.Common.Coalesce.Events.{PathBuf}
use alloyfs.Common.Files.{read_fully, read_loop}
use alloyfs.Common.Files.Sample.{sample_fs}
use alloyfs.Client.Overlay.{Overlay, read, write, handle}

abbrev root : PathBuf
root = record { components = chars "o" ∷ []; is_unicode = true }

abbrev o : Overlay sample_fs
o = record { disk = 1 ∷ 2 ∷ 3 ∷ []; handles = (9223372036854775809, tt) ∷ []; next_fh = 2 }

read_through : (read sample_fs root 9223372036854775809 1 5 o).0 ≡ ok (2 ∷ 3 ∷ [])
unfolding read handle get read_fully read_loop ◌>>=◌
read_through = refl

unknown_handle : (write sample_fs root 3 0 [] o).0 ≡ err bad_handle
unfolding write handle get ◌>>=◌
unknown_handle = refl
