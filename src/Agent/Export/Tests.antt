-- ===== src/Agent/Export/Tests.antt =====
-- Paths and listings of a small export.
use alloyfs.Base.{◌≡◌, refl, true, List, [], ◌∷◌}
use alloyfs.Base.Text.{chars, text_eq}
use alloyfs.Base.Text.Split.{split_on, rsplit_once}
use alloyfs.Proto.Errors.{ok, err, not_found}
use alloyfs.Proto.Path.{validate, split, join}
use alloyfs.Proto.Messages.{DirEntry}
use alloyfs.Common.Exclude.{is_excluded}
use alloyfs.Common.Coalesce.Events.{PathBuf}
use alloyfs.Common.Files.Sample.{sample_fs}
use alloyfs.Agent.Export.{
  resolve, resolve_new, resolve_unchecked, recheck, browse, push_all, served, entries_of,
  sort_by_name, insert_entry,
}
use alloyfs.Agent.Export.Inside.{resolve-IsServed, IsServed}
use alloyfs.Agent.Session.Sample.{literally, docs}

abbrev at_a : PathBuf
at_a = push_all (docs true).root (chars "a.txt" ∷ [])

a_resolves : resolve sample_fs literally [] (docs true) (chars "a.txt") ≡ ok at_a
unfolding resolve resolve_unchecked recheck validate is_excluded split_on
a_resolves = refl

resolve-IsServed_example : IsServed literally (docs true) at_a
resolve-IsServed_example =
    (resolve-IsServed sample_fs literally [] (docs true) (chars "a.txt") at_a a_resolves).2

a_resolves_new : resolve_new sample_fs literally [] (docs true) (chars "a.txt") ≡ ok at_a
unfolding resolve_new resolve resolve_unchecked recheck validate is_excluded split split_on
    rsplit_once
a_resolves_new = refl

secret_hidden : resolve sample_fs literally [] (docs true) (chars "secret") ≡ err not_found
unfolding resolve is_excluded
secret_hidden = refl

listing : (es : List DirEntry) × (browse sample_fs literally [] (docs true) [] ≡ ok es)
unfolding browse resolve resolve_unchecked recheck validate is_excluded split_on entries_of served
    sort_by_name insert_entry join
listing = (_, refl)
