-- ===== src/Agent/Session/Tests.antt =====
-- The requests of a session on small worlds.
use alloyfs.Base.{◌≡◌, ◌≢◌, refl, arith, true, false, none, some, List, [], ◌∷◌, All, nat_eq}
use mathlib.Core.Path.{subst}
use alloyfs.Base.Text.{chars, text_eq, text_beq_iff}
use alloyfs.Base.Table.{get}
use alloyfs.Base.Table.Values.{AllValues}
use alloyfs.Proto.Errors.{err, conflict}
use alloyfs.Proto.Messages.{Request, DirEntry, OpenFlags, FileKind, after_epoch}
use alloyfs.Common.Files.{done, write_fully, write_loop}
use alloyfs.Common.Files.Sample.{sample_fs}
use alloyfs.Agent.Versions.{version_of, IsClock}
use alloyfs.Agent.Export.{Export}
use alloyfs.Common.Exclude.{is_excluded}
use alloyfs.Agent.Session.{disconnected, touch}
use alloyfs.Agent.Session.Token.{token_eq, differences}
use alloyfs.Agent.Session.Handler.{handle_all}
use alloyfs.Agent.Session.Changes.{write}
use alloyfs.Agent.Session.ReadOnly.{OpensForReading, IsReadOnly}
use alloyfs.Agent.Session.Unchanged.{handle_all-Unchanged}
use alloyfs.Agent.Session.Gate.{IsRefusal, handle_all-IsRefusal}
use alloyfs.Agent.Session.Handles.{IsGuarded}
use alloyfs.Agent.Session.Granted.{handle_all-IsGuarded}
use alloyfs.Agent.Session.Release.{disconnected_lem}
use alloyfs.Agent.Session.Conflict.{write_lem}
use alloyfs.Agent.Session.Steps.{Found}
use alloyfs.Agent.Session.Paging.{all_pages, all_pages_complete}
use alloyfs.Agent.Session.Sample.{literally, excludes, docs, opened, session_of, world_of}

abbrev flags : OpenFlags
flags = record { read = true; write = true; truncate = true; append = false; excl = false }

abbrev requests : List Request
requests =
    Request.write 1 0 (7 ∷ 8 ∷ []) none
    ∷ Request.open_file (chars "a.txt") flags
    ∷ Request.open_file (chars "secret") (record flags { write = false; truncate = false })
    ∷ Request.unlink (chars "a.txt")
    ∷ Request.release 1
    ∷ []

sample-OpensForReading : OpensForReading sample_fs
sample-OpensForReading = record { unchanged = λ disk path. refl }

handle_all-Unchanged_example :
    let w = world_of true (session_of none true) in
    let after = (handle_all sample_fs literally requests w).1 in
    (after.disk ≡ w.disk) × AllValues IsReadOnly after.exports
handle_all-Unchanged_example =
    handle_all-Unchanged sample_fs literally sample-OpensForReading requests
      (world_of true (session_of none true)) (refl, tt)

wrong_token : token_eq (chars "pas") (chars "pass") ≡ false
unfolding token_eq differences
wrong_token = refl

right_token : token_eq (chars "pass") (chars "pass") ≡ true
unfolding token_eq differences
right_token = refl

handle_all-IsRefusal_example :
    let w = world_of false (session_of (some (chars "pass")) false) in
    let reqs = Request.auth (chars "pas") ∷ requests in
    All IsRefusal (handle_all sample_fs literally reqs w).0
    × (touch sample_fs (handle_all sample_fs literally reqs w).1 ≡ touch sample_fs w)
handle_all-IsRefusal_example =
    handle_all-IsRefusal sample_fs literally (chars "pass") (Request.auth (chars "pas") ∷ requests)
      (world_of false (session_of (some (chars "pass")) false))
      (record { required = refl; outside = refl }) (wrong_token, (tt, (tt, (tt, (tt, (tt, tt))))))

a_visible : is_excluded literally excludes (chars "a.txt") ≡ false
unfolding is_excluded
a_visible = refl

docs_policy :
    (x : Export)
    → get (chars "docs") (world_of false (session_of none true)).exports ≡ some x
    → (x.exclude ≡ excludes) × (x.read_only ≡ false)
unfolding get
docs_policy x e =
    let same : docs false ≡ x = ground arith in
    subst (λ y. (y.exclude ≡ excludes) × (y.read_only ≡ false)) same (refl, refl)

handle_all-IsGuarded_example :
    IsGuarded sample_fs literally
      (chars "docs")
      excludes
      false
      (handle_all sample_fs literally requests (world_of false (session_of none true))).1
handle_all-IsGuarded_example =
    handle_all-IsGuarded sample_fs literally (chars "docs") excludes false requests
      (world_of false (session_of none true))
      (record {
        attached = refl;
        policy = docs_policy;
        granted = (record { visible = a_visible; may_write = λ t. refl }, tt);
      })

abbrev entry : DirEntry
entry = record {
  name = chars "a";
  attr = record {
    kind = FileKind.file;
    size = 0;
    mtime = after_epoch 0;
    ctime = after_epoch 0;
    mode = 0;
    version = 0;
  };
}

all_pages_complete_example : all_pages 3 (entry ∷ entry ∷ []) 0 ≡ some (entry ∷ entry ∷ [])
all_pages_complete_example = all_pages_complete (entry ∷ entry ∷ [])

docs-Found : Found sample_fs (world_of false (session_of none true)) (chars "docs") (docs false)
unfolding get
docs-Found = (refl, refl)

opened_found : get 1 (session_of none true).handles ≡ some opened
unfolding get
opened_found = refl

disk_written : write_fully sample_fs (1 ∷ 2 ∷ 3 ∷ []) tt (7 ∷ []) 0 ≡ (done tt, 7 ∷ 2 ∷ 3 ∷ [])
unfolding write_fully write_loop
disk_written = refl

docs-IsClock : IsClock (docs false).versions
unfolding version_of get
docs-IsClock = record { behind = λ p. ground (arith, text_beq_iff (chars "a.txt") p) }

expects_other : 2 ≢ version_of (docs false).versions (chars "a.txt")
unfolding version_of get
expects_other = omega arith

write_lem_example :
    write sample_fs literally 1 0 (7 ∷ []) (some 2) (world_of false (session_of none true))
    ≡ (err conflict, world_of false (session_of none true))
write_lem_example =
    (write_lem sample_fs literally (world_of false (session_of none true)) (chars "docs")
        (docs false) 1 0 opened (7 ∷ []) (some 2) (7 ∷ 2 ∷ 3 ∷ []) docs-Found refl opened_found refl
        disk_written docs-IsClock (omega arith)).0
      2 refl expects_other

disconnected_lem_example :
    (disconnected sample_fs (world_of false (session_of none true))).session.handles ≡ []
disconnected_lem_example =
    (disconnected_lem sample_fs (world_of false (session_of none true)) (chars "docs") (docs false)
      docs-Found).0
