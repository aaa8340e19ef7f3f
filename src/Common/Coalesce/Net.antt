-- ===== src/Common/Coalesce/Net.antt =====
-- The collapse of one path's events reports their net effect.
use mathlib.Core.Path.{subst}
use alloyfs.Base.{
  ℕ, ◌≡◌, refl, ap, ◌∙◌, Bool, true, false, ◌||◌, Option, none, some, List, [], ◌∷◌, arith,
}
use alloyfs.Base.Text.{text_eq}
use alloyfs.Base.Table.{Table, get, get-insert_self, get-remove_self}
use alloyfs.Proto.Path.{RelPath}
use alloyfs.Proto.Messages.{
  EventKind, created, modified, attr_changed, removed, renamed_from, resync_required,
}
use alloyfs.Common.Exclude.{Globset, is_excluded}
use alloyfs.Common.Coalesce.{Coalescer, Pending, merge, kind_of, put_pending, push}

pub merge_all : Option EventKind → List EventKind → Option EventKind
merge_all old [] = old
merge_all old (k ∷ ks) = merge_all (merge old k) ks

-- The events of one file that exists before if the first flag is set, and after if the last is: it
-- is created where there is none, and changed or removed where there is one.
abbrev pub Consistent : Bool → List EventKind → Bool → Type 0
Consistent before [] after = before ≡ after
Consistent before (created ∷ ks) after = (before ≡ false) × Consistent true ks after
Consistent before (modified ∷ ks) after = (before ≡ true) × Consistent true ks after
Consistent before (attr_changed ∷ ks) after = (before ≡ true) × Consistent true ks after
Consistent before (removed ∷ ks) after = (before ≡ true) × Consistent false ks after
Consistent before (renamed_from to ∷ ks) after = ⊥
Consistent before (resync_required ∷ ks) after = ⊥

abbrev pub is_content : EventKind → Bool
is_content attr_changed = false
is_content _ = true

-- Something other than an attribute was touched.
abbrev pub touches : List EventKind → Bool
touches [] = false
touches (k ∷ ks) = is_content k || touches ks

-- What a pending kind says of a file that existed before, exists after, and had its content touched.
abbrev pub Describes : Option EventKind → Bool → Bool → Bool → Type 0
Describes none before after touched = (before ≡ after) × (before ≡ true → touched ≡ false)
Describes (some created) before after touched = (before ≡ false) × (after ≡ true)
Describes (some modified) before after touched = (before ≡ true) × (after ≡ true) × (touched ≡ true)
Describes (some attr_changed) before after touched =
    (before ≡ true) × (after ≡ true) × (touched ≡ false)
Describes (some removed) before after touched = (before ≡ true) × (after ≡ false)
Describes (some (renamed_from to)) before after touched = ⊥
Describes (some resync_required) before after touched = ⊥

or_assoc : (a b c : Bool) → ((a || b) || c) ≡ (a || (b || c))
or_assoc true b c = refl
or_assoc false b c = refl

or_false : (c : Bool) → (c || false) ≡ c
or_false true = refl
or_false false = refl

-- The state of the file behind one event.
abbrev exists_after : EventKind → Bool
exists_after removed = false
exists_after _ = true

merge-Describes :
    (old : Option EventKind) (k : EventKind) (b m c a : Bool)
    → Describes old b m c
    → Consistent m (k ∷ []) a
    → Describes (merge old k) b (exists_after k) (c || is_content k)
unfolding merge
merge-Describes none (renamed_from t) b m c a d h = absurd h
merge-Describes (some created) (renamed_from t) b m c a d h = absurd h
merge-Describes (some (renamed_from t)) resync_required b m c a d h = absurd h
merge-Describes (some resync_required) created b m c a d h = absurd d
merge-Describes _ _ b m c a d h = ground arith

Consistent-split :
    (m : Bool) (k : EventKind) (ks : List EventKind) (a : Bool)
    → Consistent m (k ∷ ks) a
    → Consistent m (k ∷ []) (exists_after k) × Consistent (exists_after k) ks a
Consistent-split m (renamed_from t) ks a h = absurd h
Consistent-split m _ ks a h = ground arith

merge_all-Describes :
    (old : Option EventKind) (ks : List EventKind) (b m c a : Bool)
    → Describes old b m c
    → Consistent m ks a
    → Describes (merge_all old ks) b a (c || touches ks)
unfolding merge_all
merge_all-Describes old [] b m c a d h =
    subst (λ x. Describes old b x (c || false)) h (rw (or_false c) d)
merge_all-Describes old (k ∷ ks) b m c a d h =
    let (first, later) = Consistent-split m k ks a h in
    subst (Describes (merge_all (merge old k) ks) b a) (or_assoc c (is_content k) (touches ks)) (
      merge_all-Describes (merge old k) ks b (exists_after k) (c || is_content k) a
        (merge-Describes old k b m c (exists_after k) d first) later)

-- The raw events of one path, each with the time at which it came in.
pub push_each : Globset → Coalescer → RelPath → List (ℕ × EventKind) → Coalescer
push_each lib co path [] = co
push_each lib co path ((now, k) ∷ ks) = push_each lib (push lib now co path k) path ks

abbrev pub kinds : List (ℕ × EventKind) → List EventKind
kinds [] = []
kinds ((now, k) ∷ ks) = k ∷ kinds ks

abbrev pub pending_kind : RelPath → Coalescer → Option EventKind
pending_kind path co = kind_of (get path co.pending)

kind-put_pending :
    (path : RelPath) (now : ℕ) (o : Option EventKind) (t : Table RelPath Pending)
    → kind_of (get path (put_pending path now o t)) ≡ o
unfolding put_pending
kind-put_pending path now none t = rw (get-remove_self path t)
kind-put_pending path now (some k) t = rw (get-insert_self path _ t)

kind-push :
    (lib : Globset) (now : ℕ) (co : Coalescer) (path : RelPath) (k : EventKind)
    → is_excluded lib co.exclude path ≡ false
    → pending_kind path (push lib now co path k) ≡ merge (pending_kind path co) k
unfolding push
kind-push lib now co path k h = rw h (kind-put_pending path now _ co.pending)

exclude-push :
    (lib : Globset) (now : ℕ) (co : Coalescer) (path : RelPath) (k : EventKind)
    → (push lib now co path k).exclude ≡ co.exclude
unfolding push
exclude-push lib now co path k = ground arith

kind-push_each :
    (lib : Globset) (co : Coalescer) (path : RelPath) (ks : List (ℕ × EventKind))
    → is_excluded lib co.exclude path ≡ false
    → pending_kind path (push_each lib co path ks) ≡ merge_all (pending_kind path co) (kinds ks)
unfolding push_each merge_all
kind-push_each lib co path [] h = refl
kind-push_each lib co path ((now, k) ∷ ks) h =
    kind-push_each lib (push lib now co path k) path ks (rw (exclude-push lib now co path k) h)
    ∙ ap (λ o. merge_all o (kinds ks)) (kind-push lib now co path k h)

-- The creations, changes and removals of one file that come in within a window, in an order that a
-- file allows and without a rename among them, for a path that is not excluded and for which nothing
-- was pending: the one kind that is pending for the path behind them tells whether the file existed before and exists after; of a file that exists throughout it tells a
-- change of its content from a mere change of attributes; and where nothing is pending, nothing
-- that an observer of the two ends could see has happened.
pub push_each-Describes :
    (lib : Globset) (co : Coalescer) (path : RelPath) (ks : List (ℕ × EventKind))
    (before after : Bool)
    → is_excluded lib co.exclude path ≡ false
    → get path co.pending ≡ none
    → Consistent before (kinds ks) after
    → Describes (pending_kind path (push_each lib co path ks)) before after (touches (kinds ks))
push_each-Describes lib co path ks before after h fresh c =
    rw (kind-push_each lib co path ks h, fresh)
      (merge_all-Describes none (kinds ks) before before false after (refl, λ e. refl) c)
