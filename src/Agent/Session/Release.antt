-- ===== src/Agent/Session/Release.antt =====
-- What is left of a session that ends or whose lease runs out.
use alloyfs.Base.{◌+◌, ◌≡◌, refl, ap, false, some, [], length, retain, arith, nat_eq}
use alloyfs.Base.Text.{Text, text_eq}
use alloyfs.Base.Table.{get, get-insert_self}
use alloyfs.Base.Table.Values.{AllValues}
use alloyfs.Common.Files.{FileSystem}
use alloyfs.Agent.Locks.{release_session}
use alloyfs.Agent.Locks.Release.{all_holds, hold_of_others, NoWaiter, release_session_lem}
use alloyfs.Agent.Export.{Export}
use alloyfs.Agent.Session.{
  World, attached_export, released_export, released_from, force_release, disconnected,
}
use alloyfs.Agent.Session.Steps.{Found, on_export-Found}

module _ (fs : FileSystem) where
  attached_export-Found :
      (w : World fs) (name : Text) (x : Export) → Found fs w name x → attached_export fs w ≡ some x
  attached_export-Found w name x (a, e) = ground (arith, a, e)

  -- When a session ends that is attached to an export, it holds no handle and cannot be pushed to. Of
  -- the locks of the export, exactly the other sessions' holds are left, and no wait of the session
  -- is. What was given up is counted.
  pub disconnected_lem :
      (w : World fs) (name : Text) (x : Export)
      → Found fs w name x
      → let after = disconnected fs w in
        let id = w.session.id in
        (after.session.handles ≡ [])
        × (after.session.push ≡ false)
        × ((y : Export) × (get name after.exports ≡ some y)
            × (all_holds y.locks ≡ retain (hold_of_others id) (all_holds x.locks))
            × AllValues (NoWaiter id) y.locks
            × ((force_release fs w).1 + length (all_holds y.locks)
                ≡ length (all_holds x.locks) + length w.session.handles))
  unfolding disconnected force_release
  disconnected_lem w name x f =
      let id = w.session.id in
      let (kept, counted, waiting) = release_session_lem id x.locks in
      let y = released_export fs id x in
      let count : (released_from fs id (attached_export fs w)).0 ≡ (release_session id x.locks).1 =
        ap (λ o. (released_from fs id o).0) (attached_export-Found w name x f) in
      (
        refl,
        refl,
        (
          y,
          rw (on_export-Found fs (released_export fs id) w name x f)
              (get-insert_self name y w.exports),
          kept,
          waiting,
          omega (arith, count, counted),
        ),
      )
