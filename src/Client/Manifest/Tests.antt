-- ===== src/Client/Manifest/Tests.antt =====
-- A rename of a directory in a manifest with one file in it.
use alloyfs.Base.{[], ◌∷◌}
use alloyfs.Base.Text.{chars, text_eq}
use alloyfs.Client.Reconcile.{EntryKind}
use alloyfs.Client.Manifest.{SyncManifest}

abbrev one_file : SyncManifest
one_file = record {
  format = 1;
  last_seq = 0;
  entries =
      (chars "d/f", record { kind = EntryKind.file; remote_version = 1; size = 2; mtime_ns = 3 })
      ∷ [];
}
