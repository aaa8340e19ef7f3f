-- ===== src/Agent/Versions.antt =====
-- The per-export version clock of crates/alloyfs-agent/src/ops.rs, and `publish_batch` of watch.rs,
-- which drives it for changes that the watcher saw.
mod Tests
use alloyfs.Base.{
  ℕ, ◌+◌, ◌%◌, ◌^◌, ◌≤◌, ◌<◌, ◌≡◌, ◌≢◌, refl, ◌⊎◌, inl, inr, Bool, true, false, Option, none, some,
  List, [], ◌∷◌, arith, if◌then◌else◌, length,
}
use alloyfs.Base.Text.{text_eq, text_beq_iff}
use alloyfs.Base.Table.{
  Table, get, insert, remove, get-insert, get-insert_self, get-insert_ne, get-remove, get-remove_ne,
}
use alloyfs.Proto.Path.{RelPath}
use alloyfs.Proto.Messages.{
  EventKind, FsEvent, created, modified, attr_changed, removed, renamed_from, resync_required,
}
use alloyfs.Agent.Hub.{EventHub, u64_mod, publish}

-- The two fields of `Export` that the clock is made of.
pub record Versions : Type 0 where
  pub versions : Table RelPath ℕ
  pub vclock : ℕ

abbrev or_zero : Option ℕ → ℕ
or_zero none = 0
or_zero (some v) = v

unfoldable pub version_of : Versions → RelPath → ℕ
version_of x path = or_zero (get path x.versions)

pub bump : Versions → RelPath → Versions × ℕ
bump x path =
    let v = (x.vclock + 1) % u64_mod in
    (record { versions = insert path v x.versions; vclock = v }, v)

pub rename_version : Versions → RelPath → RelPath → Versions × ℕ
rename_version x from to = bump (record x { versions = remove from x.versions }) to

-- The version bookkeeping of one event of a batch.
pub apply_event : Versions → RelPath → EventKind → Versions
apply_event x path (renamed_from to) = (rename_version x path to).0
apply_event x path removed = x
apply_event x path created = (bump x path).0
apply_event x path modified = (bump x path).0
apply_event x path attr_changed = (bump x path).0
apply_event x path resync_required = (bump x path).0

pub apply_batch : Versions → List (RelPath × EventKind) → Versions
apply_batch x [] = x
apply_batch x ((path, kind) ∷ batch) = apply_batch (apply_event x path kind) batch

-- `publish_batch`: an empty batch does nothing.
pub publish_batch :
    (ℕ → ℕ) → Versions → EventHub → List (RelPath × EventKind) → Versions × EventHub × List FsEvent
publish_batch clock x hub [] = (x, hub, [])
publish_batch clock x hub (e ∷ batch) =
    let (hub', sent) = publish clock hub (e ∷ batch) in (apply_batch x (e ∷ batch), hub', sent)

-- No version is ahead of the clock.
pub record IsClock (x : Versions) : Type 0 where
  pub behind : (path : RelPath) → version_of x path ≤ x.vclock

-- A bump gives its path a version above every version of any path, and changes no other path.
pub bump_lem :
    (x : Versions) (path : RelPath)
    → IsClock x
    → x.vclock + 1 < u64_mod
    → ((j : RelPath) → version_of x j < version_of (bump x path).0 path)
      × ((j : RelPath) → path ≢ j → version_of (bump x path).0 j ≡ version_of x j)
      × IsClock (bump x path).0
unfolding version_of bump
bump_lem x path h w = (
  λ j. ground (arith, h.behind j, get-insert_self path ((x.vclock + 1) % u64_mod) x.versions),
  λ j ne. ground (arith, get-insert_ne path j ((x.vclock + 1) % u64_mod) x.versions ne),
  record {
    behind =
        λ j. ground (arith, h.behind j, get-insert path j ((x.vclock + 1) % u64_mod) x.versions);
  },
)

pub version_of-bump_self :
    (x : Versions) (path : RelPath) → version_of (bump x path).0 path ≡ (bump x path).1
unfolding version_of bump
version_of-bump_self x path =
    ground (arith, get-insert_self path ((x.vclock + 1) % u64_mod) x.versions)

-- A rename bumps the target above every version that there was, forgets the source, and changes no
-- other path.
pub rename_version_lem :
    (x : Versions) (from to : RelPath)
    → IsClock x
    → x.vclock + 1 < u64_mod
    → from ≢ to
    → ((j : RelPath) → version_of x j < version_of (rename_version x from to).0 to)
      × (version_of (rename_version x from to).0 from ≡ 0)
      × ((j : RelPath)
          → from ≢ j
          → to ≢ j
          → version_of (rename_version x from to).0 j ≡ version_of x j)
      × IsClock (rename_version x from to).0
unfolding version_of rename_version bump
rename_version_lem x from to h w ne =
    let kept = remove from x.versions in
    let v = (x.vclock + 1) % u64_mod in
    (
      λ j. ground (arith, h.behind j, get-insert_self to v kept),
      ground (
        arith,
        get-insert to from v kept,
        get-remove from from x.versions,
        text_beq_iff to from,
        text_beq_iff from from,
      ),
      λ j nf nt. ground (arith, get-insert_ne to j v kept nt, get-remove_ne from j x.versions nf),
      record {
        behind =
            λ j. ground (arith, h.behind j, get-insert to j v kept, get-remove from j x.versions);
      },
    )
