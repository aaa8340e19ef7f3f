-- ===== src/Client/Remote/Tests.antt =====
-- The theorems on the mount at the sample.
use alloyfs.Base.{
  ℕ, suc, ◌+◌, ◌*◌, ◌/◌, ◌≡◌, refl, ap, true, false, Option, none, some, List, [], ◌∷◌, ◌++◌, ◌⊎◌,
  inl, inr, length, arith, nat_eq,
}
use alloyfs.Base.Text.{chars}
use alloyfs.Base.Table.{get}
use alloyfs.Proto.Errors.{ok, io, cross_device}
use alloyfs.Proto.Path.{join}
use alloyfs.Proto.Messages.{Bytes, Request, Response, LockKind, data_chunk}
use alloyfs.Client.Errno.{remote}
use alloyfs.Client.Effect.{success, failure}
use alloyfs.Client.Inodes.{path_of}
use alloyfs.Client.ReadAhead.Blocks.{block}
use alloyfs.Client.Remote.{OpenState, answered, Sent}
use alloyfs.Client.Remote.Sample.{
  sample_tree, sample_out, sample_mount, sample_handle, sample_file, sample_version,
}
use alloyfs.Client.Remote.Reconnect.{is_attached, opened_fh, reconnect}
use alloyfs.Client.Remote.Reconnect.Locks.{Restored, reconnect-Restored}
use alloyfs.Client.Remote.Reconnect.Aliases.{write-reconnect_misdirected}
use alloyfs.Client.Remote.Calls.{Mount, call, is_overlay}
use alloyfs.Client.Remote.Calls.Log.{SentAgain, call_sent_once}
use alloyfs.Client.Remote.Names.{rename}
use alloyfs.Client.Remote.Links.{link}
use alloyfs.Client.Remote.Links.Crossing.{crossing_refused}
use alloyfs.Client.Remote.Files.{write, lock, flush, expected_version}
use alloyfs.Client.Remote.Files.Poisoned.{poisoned_refused}
use alloyfs.Client.Remote.Files.Chunks.{Accepts, placed, bytes_at}
use alloyfs.Client.Remote.Files.Writing.{Written, write-exact}
use alloyfs.Client.Remote.Reads.{read}
use alloyfs.Client.Remote.Reads.Fetched.{Serves}
use alloyfs.Client.Remote.Reads.Exact.{Opened, read-exact}
use alloyfs.Client.Remote.Routed.{IsRouted}
use alloyfs.Client.Remote.Routed.Runs.{
  Op, lookups, opens, reads, reconnects, renames, after_ops, after_ops-IsRouted,
}

abbrev mount : Mount sample_tree sample_out
mount = sample_mount

attached : is_attached (sample_out.reply [] [] 2 (Request.attach (chars "x"))) ≡ true
unfolding is_attached
attached = refl

third_there :
    get 3 mount.open_files ≡ some (sample_handle (chars "gone") 3 (some LockKind.exclusive))
unfolding get
third_there = refl

first_there : get 1 mount.open_files ≡ some (sample_handle (chars "gone") 1 none)
unfolding get
first_there = refl

second_there : get 2 mount.open_files ≡ some (sample_handle (chars "b") 2 none)
unfolding get
second_there = refl

reconnect-Restored_example :
    ((reconnect sample_out 2 mount).conn ≡ 2)
    × (new : OpenState) × (get 3 (reconnect sample_out 2 mount).open_files ≡ some new)
    × Restored sample_out [] 2 (sample_handle (chars "gone") 3 (some LockKind.exclusive)) new
reconnect-Restored_example =
    reconnect-Restored sample_out 2 mount 3
      (sample_handle (chars "gone") 3 (some LockKind.exclusive)) attached third_there

gone_lost :
    (log : List Sent)
    → opened_fh (
        sample_out.reply [] log 2
          (Request.open_file (chars "gone") (sample_handle (chars "gone") 1 none).flags))
      ≡ none
unfolding opened_fh
gone_lost log = refl

b_found :
    (log : List Sent)
    → opened_fh (
        sample_out.reply [] log 2
          (Request.open_file (chars "b") (sample_handle (chars "b") 2 none).flags))
      ≡ some 1
unfolding opened_fh
b_found log = refl

call_sent_once_example :
    ((call sample_tree sample_out (Request.unlink (chars "b")) mount).1.sent
      ≡ (1, Request.unlink (chars "b")) ∷ [])
    ⊎ SentAgain sample_tree sample_out
        (Request.unlink (chars "b"))
        mount
        (call sample_tree sample_out (Request.unlink (chars "b")) mount).1
call_sent_once_example = call_sent_once sample_tree sample_out (Request.unlink (chars "b")) mount

abbrev lost_mount : Mount sample_tree sample_out
lost_mount = record sample_mount {
  open_files = (1, record (sample_handle (chars "b") 1 none) { poisoned = true }) ∷ [];
}

lost_there :
    get 1 lost_mount.open_files
    ≡ some (record (sample_handle (chars "b") 1 none) { poisoned = true })
unfolding get
lost_there = refl

poisoned_refused_example :
    (read sample_tree sample_out 1 0 4 lost_mount ≡ (failure (remote io), lost_mount))
    × (write sample_tree sample_out 1 0 (7 ∷ []) lost_mount ≡ (failure (remote io), lost_mount))
    × (lock sample_tree sample_out 1 LockKind.shared true lost_mount
        ≡ (failure (remote io), lost_mount))
    × (flush sample_tree sample_out 1 lost_mount ≡ (failure (remote io), lost_mount))
poisoned_refused_example =
    poisoned_refused sample_tree sample_out 1 lost_mount
      (record (sample_handle (chars "b") 1 none) { poisoned = true }) 0 4 (7 ∷ []) LockKind.shared
      true refl lost_there refl

serves : Serves sample_out 2 (block data_chunk sample_file)
serves = record { steady = λ sent replayed. refl; serves = λ sent replayed conn b. served b }
  where
    served :
        (b : ℕ)
        → answered
            (ok (Response.bytes (block data_chunk sample_file (b * data_chunk / data_chunk))))
          ≡ answered (ok (Response.bytes (block data_chunk sample_file b)))
    served b =
        let e : b * data_chunk / data_chunk ≡ b = omega arith in
        ap (λ k. answered (ok (Response.bytes (block data_chunk sample_file k)))) e

opened : Opened sample_tree sample_out 2 2 sample_file serves mount
opened = record {
  state = sample_handle (chars "b") 2 none;
  there = second_there;
  holds = record { in_flight = tt; kept = tt; bounded = omega arith };
}

read-exact_example :
    (s' : Mount sample_tree sample_out) × (read sample_tree sample_out 2 1 2 mount
      ≡ (success (20 ∷ 30 ∷ []), s'))
    × Opened sample_tree sample_out 2 2 sample_file serves s'
unfolding opened
read-exact_example =
    read-exact sample_tree sample_out 2 2 sample_file serves 1 2 mount opened refl refl refl refl

accepts : Accepts sample_out 2 sample_version
accepts = record {
  steady = λ sent replayed. refl;
  accepts = λ sent replayed conn offset chunk expected known.
      ap (λ v. answered (ok (Response.written (length chunk) v false))) (next sent);
}
  where
    next : (sent : List Sent) → length sent + 1 ≡ suc (length sent)
    next sent = omega arith

first_accepts : Accepts sample_out 1 sample_version
first_accepts = record { steady = accepts.steady; accepts = accepted }
  where
    accepted :
        (sent replayed : List Sent) (conn offset : ℕ) (chunk : Bytes) (expected : Option ℕ)
        → (expected ≡ none) ⊎ (expected ≡ some (sample_version sent))
        → sample_out.reply sent replayed conn (Request.write 1 offset chunk expected)
          ≡ answered (ok (Response.written (length chunk) (suc (length sent)) false))
    accepted sent replayed conn offset chunk expected known =
        let next : length sent + 1 ≡ suc (length sent) = omega arith in
        ap (λ v. answered (ok (Response.written (length chunk) v false))) next

abbrev blind_mount : Mount sample_tree sample_out
blind_mount = record mount { detect_conflicts = false }

write-reconnect_misdirected_example :
    let s' : Mount sample_tree sample_out = reconnect sample_out 2 blind_mount in
    (a : OpenState) × (b : OpenState) × (s'' : Mount sample_tree sample_out) × (get 1 s'.open_files
      ≡ some a)
    × (a.path ≡ chars "gone")
    × (get 2 s'.open_files ≡ some b)
    × (b.path ≡ chars "b")
    × (write sample_tree sample_out 1 5 (7 ∷ 8 ∷ []) s' ≡ (success 2, s''))
    × (placed b.server_fh s''.sent ≡ placed b.server_fh s'.sent ++ bytes_at 5 (7 ∷ 8 ∷ []))
write-reconnect_misdirected_example =
    write-reconnect_misdirected sample_tree sample_out 2 blind_mount 1 2
      (sample_handle (chars "gone") 1 none) (sample_handle (chars "b") 2 none) sample_version 5
      (7 ∷ 8 ∷ []) refl refl attached first_there second_there refl refl refl gone_lost b_found
      first_accepts

version_unknown : expected_version sample_tree sample_out 2 mount ≡ none
unfolding expected_version get
version_unknown = refl

write-exact_example :
    (s' : Mount sample_tree sample_out) × (write sample_tree sample_out 2 1 (7 ∷ 8 ∷ []) mount
      ≡ (success 2, s'))
    × Written sample_tree sample_out 2 2 sample_version accepts 1 (7 ∷ 8 ∷ []) mount s'
write-exact_example =
    write-exact sample_tree sample_out 2 2 sample_version accepts 1 (7 ∷ 8 ∷ []) mount
      (sample_handle (chars "b") 2 none) refl second_there refl refl (inl version_unknown)

b_at : path_of mount.ino 2 ≡ some (chars "b")
unfolding path_of get
b_at = refl

root_at : path_of mount.ino 1 ≡ some []
unfolding path_of get
root_at = refl

b_outside : is_overlay sample_tree sample_out mount (chars "b") ≡ false
unfolding is_overlay
b_outside = refl

tmp_inside : is_overlay sample_tree sample_out mount (chars "tmp") ≡ true
unfolding is_overlay
tmp_inside = refl

crossing_refused_example :
    (rename sample_tree sample_out 1 (chars "b") 1 (chars "tmp") true mount
      ≡ (failure (remote cross_device), mount))
    × (link sample_tree sample_out 2 1 (chars "tmp") mount ≡ (failure (remote cross_device), mount))
unfolding join
crossing_refused_example =
    crossing_refused sample_tree sample_out mount 2 1 1 (chars "b") (chars "tmp") true (chars "b")
      [] [] b_at root_at root_at (inr (b_outside, tmp_inside)) (inr (b_outside, tmp_inside))

mount-IsRouted : IsRouted sample_tree true mount
mount-IsRouted = record {
  same = refl;
  sent = tt;
  replayed = tt;
  files = (refl, (refl, (refl, tt)));
}

abbrev some_ops : List Op
some_ops =
    lookups 1 (chars "b")
    ∷ opens 2 (sample_handle (chars "b") 2 none).flags
    ∷ reconnects 2
    ∷ renames 1 (chars "b") 1 (chars "c") true
    ∷ reads 1 0 4
    ∷ []

after_ops-IsRouted_example :
    IsRouted sample_tree true (after_ops sample_tree sample_out some_ops mount)
after_ops-IsRouted_example =
    after_ops-IsRouted sample_tree true sample_out some_ops mount mount-IsRouted
