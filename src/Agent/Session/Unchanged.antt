-- ===== src/Agent/Session/Unchanged.antt =====
-- The requests answered in the async context, and sequences of requests, where every export is
-- read-only.
use alloyfs.Base.{ℕ, ◌≡◌, refl, Bool, Option, List, nat_eq}
use alloyfs.Base.Text.{text_eq}
use alloyfs.Base.Table.Values.{AllValues}
use alloyfs.Proto.Path.{RelPath}
use alloyfs.Proto.Messages.{Request, LockKind}
use alloyfs.Common.Action.{Keeps, Keeps-raise_if, Keeps-or_raise}
use alloyfs.Common.Exclude.{Globset}
use alloyfs.Common.Files.{FileSystem}
use alloyfs.Agent.Session.{World, handle_of}
use alloyfs.Agent.Session.Handler.{
  handle_all, route, lock, lock_pass, unlock_request, subscribe_events,
}
use alloyfs.Agent.Session.Runs.{handle_all-Keeps}
use alloyfs.Agent.Session.ReadOnly.{
  OpensForReading, IsReadOnly, IsKept, put-IsKept, export-IsKept, and_then, unlock_handle-IsKept,
  dispatch_blocking-IsKept,
}

module _ (fs : FileSystem) (lib : Globset) (disk : fs.State) where
  subscribe_events-IsKept :
      (since : Option ℕ) → Keeps (IsKept fs disk) (subscribe_events fs lib since)
  unfolding subscribe_events
  subscribe_events-IsKept since = export-IsKept fs lib disk _ λ x closed.
      and_then fs lib disk _ _ (λ w p. p)
        λ pushes.
          and_then fs lib disk _ _ (Keeps-raise_if (IsKept fs disk) _ _)
            λ u. and_then fs lib disk _ _ (λ w p. p) λ batch w p. p

  handle_of-IsKept : (fh : ℕ) → Keeps (IsKept fs disk) (handle_of fs fh)
  unfolding handle_of
  handle_of-IsKept fh =
      and_then fs lib disk _ _ (λ w p. p) λ found. Keeps-or_raise (IsKept fs disk) found _

  tickets-IsKept :
      (n : ℕ) (w : World fs) → IsKept fs disk w → IsKept fs disk (record w { next_ticket = n })
  tickets-IsKept n w p = record { same = p.same; closed = p.closed }

  lock_pass-IsKept :
      (path : RelPath) (fh : ℕ) (kind : LockKind) (wait : Bool)
      → Keeps (IsKept fs disk) (lock_pass fs lib path fh kind wait)
  unfolding lock_pass
  lock_pass-IsKept path fh kind wait = export-IsKept fs lib disk _ λ x closed.
      and_then fs lib disk _ _ (λ w p. p)
        λ id.
          and_then fs lib disk _ _ (λ w p. p)
            λ ticket.
              and_then fs lib disk _ _ (put-IsKept fs lib disk _ (λ y. refl))
                λ u. and_then fs lib disk _ _ (λ w p. tickets-IsKept _ w p) λ v w p. p

  lock-IsKept :
      (fh : ℕ) (kind : LockKind) (wait : Bool) → Keeps (IsKept fs disk) (lock fs lib fh kind wait)
  unfolding lock
  lock-IsKept fh kind wait = export-IsKept fs lib disk _ λ x closed.
      and_then fs lib disk _ _ (handle_of-IsKept fh) λ h. lock_pass-IsKept h.path fh kind wait

  unlock_request-IsKept : (fh : ℕ) → Keeps (IsKept fs disk) (unlock_request fs lib fh)
  unfolding unlock_request
  unlock_request-IsKept fh = export-IsKept fs lib disk _ λ x closed.
      and_then fs lib disk _ _ (handle_of-IsKept fh)
        λ h. and_then fs lib disk _ _ (unlock_handle-IsKept fs lib disk fh h.path) λ u w p. p

  module _ (law : OpensForReading fs) where
    route-IsKept :
        (req : Request) (w : World fs) → IsKept fs disk w → IsKept fs disk (route fs lib req w).1
    unfolding route
    route-IsKept (Request.subscribe since) w p = subscribe_events-IsKept since w p
    route-IsKept (Request.lock fh kind wait) w p = lock-IsKept fh kind wait w p
    route-IsKept (Request.unlock fh) w p = unlock_request-IsKept fh w p
    route-IsKept req w p = dispatch_blocking-IsKept fs lib disk law req w p

-- Where every export is read-only, no sequence of requests changes the disk, and every export is
-- read-only after it, if a file that is opened neither for writing nor with truncation leaves the disk
-- as it is.
pub handle_all-Unchanged :
    (fs : FileSystem) (lib : Globset)
    → OpensForReading fs
    → (reqs : List Request) (w : World fs) → AllValues IsReadOnly w.exports
    → let after = (handle_all fs lib reqs w).1 in
      (after.disk ≡ w.disk) × AllValues IsReadOnly after.exports
handle_all-Unchanged fs lib law reqs w closed =
    let p =
      handle_all-Keeps fs lib (IsKept fs w.disk)
        (λ now v p. record { same = p.same; closed = p.closed })
        (λ v p. record { same = p.same; closed = p.closed }) (route-IsKept fs lib w.disk law) reqs w
        (record { same = refl; closed = closed }) in
    (p.same, p.closed)
