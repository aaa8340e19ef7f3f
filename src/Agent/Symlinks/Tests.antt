-- ===== src/Agent/Symlinks/Tests.antt =====
-- A link in a directory of the export that points beside the directory.
use alloyfs.Base.{◌≡◌, refl, some}
use alloyfs.Base.Text.{chars}
use alloyfs.Base.Text.Split.{split_on, rsplit_once}
use alloyfs.Proto.Path.{split}
use alloyfs.Agent.Symlinks.{symlink_lands_inside, walk, directory_of}

link_lands : symlink_lands_inside (chars "d/l") (chars "../x") ≡ some (chars "x")
unfolding symlink_lands_inside walk directory_of split rsplit_once split_on
link_lands = refl
