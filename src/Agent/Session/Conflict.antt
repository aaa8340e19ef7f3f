-- ===== src/Agent/Session/Conflict.antt =====
-- Writes through a handle, with and without the version that the client expects.
use alloyfs.Base.{ℕ, ◌≡◌, ◌≢◌, refl, ap, ◌+◌, ◌<◌, true, false, Option, some, length, arith, nat_eq}
use alloyfs.Base.Text.{Text, text_eq}
use alloyfs.Base.Table.{get, get-insert_self}
use alloyfs.Proto.Errors.{ok, err, conflict}
use alloyfs.Proto.Path.{RelPath}
use alloyfs.Proto.Messages.{Response, Bytes}
use alloyfs.Common.Action.{◌>>=◌, ◌>>◌, continue, pure}
use alloyfs.Common.Exclude.{Globset}
use alloyfs.Common.Files.{FileSystem, done, write_fully}
use alloyfs.Agent.Versions.{version_of, bump, bump_lem, IsClock, version_of-bump_self}
use alloyfs.Agent.Hub.{u64_mod}
use alloyfs.Agent.Export.{Export}
use alloyfs.Agent.Session.{
  World, OpenFile, export, writable_export, handle_of, on_versions, note_write, put_export, noted,
  with_versions,
}
use alloyfs.Agent.Session.Steps.{Found, on_export-Found}
use alloyfs.Agent.Session.Changes.{write, is_stale}

module _ (fs : FileSystem) (lib : Globset) where
  export-Found :
      (w : World fs) (name : Text) (x : Export) → Found fs w name x → export fs w ≡ (ok x, w)
  unfolding export ◌>>=◌
  export-Found w name x (a, e) = ground (arith, a, e)

  writable_export-Found :
      (w : World fs) (name : Text) (x : Export)
      → Found fs w name x
      → x.read_only ≡ false
      → writable_export fs w ≡ (ok x, w)
  unfolding writable_export ◌>>=◌
  writable_export-Found w name x f e = rw (export-Found w name x f) (ground (arith, e))

  handle_of-found :
      (w : World fs) (fh : ℕ) (of : OpenFile fs)
      → get fh w.session.handles ≡ some of
      → handle_of fs fh w ≡ (ok of, w)
  unfolding handle_of ◌>>=◌
  handle_of-found w fh of e = ground (arith, e)

  write-refused :
      (w : World fs) (name : Text) (x : Export) (fh offset : ℕ) (of : OpenFile fs) (bytes : Bytes)
      (expect : Option ℕ)
      → Found fs w name x
      → x.read_only ≡ false
      → get fh w.session.handles ≡ some of
      → of.writable ≡ true
      → is_stale fs lib expect (version_of x.versions of.path) ≡ true
      → write fs lib fh offset bytes expect w ≡ (err conflict, w)
  unfolding write ◌>>=◌
  write-refused w name x fh offset of bytes expect f ro h wr stale =
      rw (writable_export-Found w name x f ro, handle_of-found w fh of h)
        (ground (arith, wr, stale))

  put_export-Found :
      (w : World fs) (name : Text) (x y : Export)
      → w.session.attached ≡ some name
      → Found fs (put_export fs name y w) name y
  put_export-Found w name x y a = (a, get-insert_self name y w.exports)

  abbrev updated : ℕ → ℕ → RelPath → Export → Export
  updated id now path x = record x {
    versions = (bump x.versions path).0;
    events = (noted fs id now path x).events;
  }

  -- What `note_write` and `on_versions` do to a found export.
  recorded :
      (w : World fs) (name : Text) (x : Export) (path : RelPath)
      → Found fs w name x
      → (note_write fs path >> on_versions fs (λ v. bump v path)) w ≡ (
        ok (bump x.versions path).1,
        put_export fs name
            (updated w.session.id w.now path x)
            (put_export fs name (noted fs w.session.id w.now path x) w),
      )
  unfolding note_write on_versions ◌>>=◌
  recorded w name x path f =
      let y = noted fs w.session.id w.now path x in
      let found = put_export-Found w name x y f.0 in
      rw
        (
          on_export-Found fs (noted fs w.session.id w.now path) w name x f,
          export-Found (put_export fs name y w) name y found,
        )
        (rw
          (on_export-Found fs (with_versions fs (λ v. bump v path)) (put_export fs name y w) name y
            found)
          refl)

  write-done :
      (w : World fs) (name : Text) (x : Export) (fh offset : ℕ) (of : OpenFile fs) (bytes : Bytes)
      (expect : Option ℕ) (disk : fs.State)
      → Found fs w name x
      → x.read_only ≡ false
      → get fh w.session.handles ≡ some of
      → of.writable ≡ true
      → is_stale fs lib expect (version_of x.versions of.path) ≡ false
      → write_fully fs w.disk of.file bytes offset ≡ (done tt, disk)
      → write fs lib fh offset bytes expect w ≡ (
        ok (Response.written (length bytes) (bump x.versions of.path).1 false),
        put_export fs name
            (updated w.session.id w.now of.path x)
            (put_export fs name (noted fs w.session.id w.now of.path x) (record w { disk = disk })),
      )
  unfolding write note_write ◌>>=◌
  write-done w name x fh offset of bytes expect disk f ro h wr fresh wrote =
      rw (writable_export-Found w name x f ro, handle_of-found w fh of h, wr, fresh, wrote)
        (ap (λ r. continue r (λ v. pure (Response.written (length bytes) v false)))
          (recorded (record w { disk = disk }) name x of.path f))

  -- A write through a writable handle of an export that is not read-only: if the client expects
  -- another version than the present one, the answer is `conflict` and nothing changes. Otherwise,
  -- if the disk takes the bytes, the answer carries a version above all versions that there were, and
  -- it is the version of the path from then on.
  pub write_lem :
      (w : World fs) (name : Text) (x : Export) (fh offset : ℕ) (of : OpenFile fs) (bytes : Bytes)
      (expect : Option ℕ) (disk : fs.State)
      → Found fs w name x
      → x.read_only ≡ false
      → get fh w.session.handles ≡ some of
      → of.writable ≡ true
      → write_fully fs w.disk of.file bytes offset ≡ (done tt, disk)
      → IsClock x.versions
      → x.versions.vclock + 1 < u64_mod
      → let after = write fs lib fh offset bytes expect w in
        ((v : ℕ) → expect ≡ some v → v ≢ version_of x.versions of.path → after ≡ (err conflict, w))
        × (is_stale fs lib expect (version_of x.versions of.path) ≡ false
            → (v : ℕ) × (y : Export) × (after.0 ≡ ok (Response.written (length bytes) v false))
              × (get name after.1.exports ≡ some y)
              × (version_of y.versions of.path ≡ v)
              × ((j : RelPath) → version_of x.versions j < v)
              × (after.1.disk ≡ disk))
  write_lem w name x fh offset of bytes expect disk f ro h wr wrote clock room = (
    λ v e ne.
        write-refused w name x fh offset of bytes expect f ro h wr (rw e (ground (arith, ne))),
    λ fresh.
        let e = write-done w name x fh offset of bytes expect disk f ro h wr fresh wrote in
        let bumped = bump_lem x.versions of.path clock room in
        rw e (
          (bump x.versions of.path).1,
          updated w.session.id w.now of.path x,
          refl,
          get-insert_self name (updated w.session.id w.now of.path x) _,
          version_of-bump_self x.versions of.path,
          λ j. ground (arith, bumped.0 j, version_of-bump_self x.versions of.path),
          refl,
        ),
  )
