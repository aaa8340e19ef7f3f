-- ===== src/Agent/Hub/CatchUp.antt =====
-- What a subscriber is told of the past.
use mathlib.Core.List.{append_assoc, append-nil}
use mathlib.Core.Path.{subst}
use alloyfs.Base.{
  ℕ, suc, ◌+◌, ◌-◌, ◌≤◌, ◌<◌, ◌≡◌, refl, ap, ◌∙◌, ◌⊎◌, inl, inr, some, List, [], ◌∷◌, ◌++◌, length,
  length-append, retain, retain-append, ltb, arith, if◌then◌else◌,
}
use alloyfs.Proto.Errors.{ok, err, too_old}
use alloyfs.Proto.Path.{RelPath}
use alloyfs.Proto.Messages.{FsEvent, EventKind}
use alloyfs.Agent.Hub.{
  EventHub, u64_mod, after_seq, catch_up, subscribe, with_capacity, publish, publish_one,
  note_local_write, run, Call, publishes, notes, event_count,
}
use alloyfs.Agent.Hub.Ring.{Numbered, IsRing, IsRing-with_capacity, publish-IsRing}

retain-old :
    (n since : ℕ) (es : List FsEvent)
    → Numbered n es
    → n + length es ≤ since
    → retain (after_seq since) es ≡ []
retain-old n since [] h l = refl
retain-old n since (e ∷ es) h l = ground (arith, retain-old (n + 1) since es h.1)

Numbered-drop : (n : ℕ) (xs ys : List FsEvent) → Numbered n (xs ++ ys) → Numbered (n + length xs) ys
Numbered-drop n [] ys h = subst (λ k. Numbered k ys) (omega arith) h
Numbered-drop n (x ∷ xs) ys h =
    subst (λ k. Numbered k ys) (omega arith) (Numbered-drop (n + 1) xs ys h.1)

Numbered-take : (n : ℕ) (xs ys : List FsEvent) → Numbered n (xs ++ ys) → Numbered n xs
Numbered-take n [] ys h = tt
Numbered-take n (x ∷ xs) ys h = (h.0, Numbered-take (n + 1) xs ys h.1)

catch_up_ring :
    (lost log : List FsEvent) (since : ℕ)
    → Numbered 0 (lost ++ log)
    → since + 1 < u64_mod
    → (log ≡ [] → lost ≡ [])
    → catch_up log since ≡ (
        if ltb since (length lost)
        then err too_old
        else ok (retain (after_seq since) (lost ++ log)))
catch_up_ring lost [] since h w e = rw (e refl) (ground arith)
catch_up_ring lost (head ∷ log) since h w e = ground (
  arith,
  Numbered-drop 0 lost (head ∷ log) h,
  retain-old 0 since lost (Numbered-take 0 lost (head ∷ log) h),
  retain-append (after_seq since) lost (head ∷ log),
)

lost-length :
    (hub : EventHub) (history : List FsEvent) (v : IsRing hub history)
    → length v.lost ≡ length history - hub.log_cap
lost-length hub history v = by_full v.full
  where
    by_full :
        (v.lost ≡ []) ⊎ (length hub.log ≡ hub.log_cap)
        → length v.lost ≡ length history - hub.log_cap
    by_full (inl none_lost) =
        omega (arith, ap length v.split, length-append v.lost hub.log, ap length none_lost, v.fits)
    by_full (inr at_cap) = omega (arith, ap length v.split, length-append v.lost hub.log)

empty-none_lost :
    (hub : EventHub) (history : List FsEvent) (v : IsRing hub history) → hub.log ≡ [] → v.lost ≡ []
empty-none_lost hub history v e = ground (arith, v.full, v.room)

subscribe-IsRing :
    (hub : EventHub) (history : List FsEvent) (since : ℕ)
    → IsRing hub history
    → since + 1 < u64_mod
    → subscribe hub (some since) ≡ (
        if ltb since (length history - hub.log_cap)
        then err too_old
        else ok (retain (after_seq since) history))
unfolding subscribe
subscribe-IsRing hub history since v w = rw (← lost-length hub history v) (
    rw v.split (
      catch_up_ring v.lost hub.log since (subst (Numbered 0) v.split v.numbered) w
        (empty-none_lost hub history v)))

length-publish :
    (clock : ℕ → ℕ) (hub : EventHub) (raw : List (RelPath × EventKind))
    → length (publish clock hub raw).1 ≡ length raw
unfolding publish
length-publish clock hub [] = refl
length-publish clock hub ((path, kind) ∷ raw) =
    ap suc (length-publish clock (publish_one clock hub path kind).0 raw)

run-IsRing :
    (clock : ℕ → ℕ) (hub : EventHub) (cs : List Call) (history : List FsEvent)
    → length history + event_count cs < u64_mod
    → IsRing hub history
    → IsRing (run clock hub cs).0 (history ++ (run clock hub cs).1)
unfolding run
run-IsRing clock hub [] history h v = rw (append-nil history) v
run-IsRing clock hub (publishes raw ∷ cs) history h v =
    let (hub', batch) = publish clock hub raw in
    subst (IsRing (run clock hub' cs).0) (append_assoc history batch (run clock hub' cs).1) (
      run-IsRing clock hub' cs (history ++ batch)
        (omega (arith, length-append history batch, length-publish clock hub raw))
        (publish-IsRing clock hub raw history (omega arith) v))
run-IsRing clock hub (notes path s now ∷ cs) history h v = run-IsRing clock _ cs history h (
    unfold note_local_write in
    record {
      lost = v.lost;
      split = v.split;
      numbered = v.numbered;
      counted = v.counted;
      fits = v.fits;
      full = v.full;
      room = v.room;
    })

log_cap-publish :
    (clock : ℕ → ℕ) (hub : EventHub) (raw : List (RelPath × EventKind))
    → (publish clock hub raw).0.log_cap ≡ hub.log_cap
unfolding publish
log_cap-publish clock hub [] = refl
log_cap-publish clock hub ((path, kind) ∷ raw) =
    log_cap-publish clock (publish_one clock hub path kind).0 raw ∙ (unfold publish_one in refl)

log_cap-run :
    (clock : ℕ → ℕ) (hub : EventHub) (cs : List Call) → (run clock hub cs).0.log_cap ≡ hub.log_cap
unfolding run
log_cap-run clock hub [] = refl
log_cap-run clock hub (publishes raw ∷ cs) = log_cap-run clock _ cs ∙ log_cap-publish clock hub raw
log_cap-run clock hub (notes path s now ∷ cs) =
    log_cap-run clock (note_local_write hub path s now) cs ∙ (unfold note_local_write in refl)

-- After any calls on a new hub, a subscriber from `since` gets every event behind `since` that was
-- ever published, in order and nothing else, unless one of them was dropped from the ring; exactly
-- then it is told `TooOld`.
pub subscribe-run :
    (clock : ℕ → ℕ) (size : ℕ) (cs : List Call) (since : ℕ)
    → 0 < size
    → event_count cs < u64_mod
    → since + 1 < u64_mod
    → let (hub, history) = run clock (with_capacity size) cs in
      subscribe hub (some since) ≡ (
        if ltb since (length history - size)
        then err too_old
        else ok (retain (after_seq since) history))
subscribe-run clock size cs since room fits w =
    subst
      (λ c. subscribe (run clock (with_capacity size) cs).0 (some since) ≡ (
        if ltb since (length (run clock (with_capacity size) cs).1 - c)
        then err too_old
        else ok (retain (after_seq since) (run clock (with_capacity size) cs).1)))
      (log_cap-run clock (with_capacity size) cs ∙ (unfold with_capacity in refl))
      (subscribe-IsRing _ _ since
        (run-IsRing clock (with_capacity size) cs [] (omega arith) (IsRing-with_capacity size room))
        w)
