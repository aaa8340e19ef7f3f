-- ===== src/Client/Remote/Files/Writing.antt =====
-- What a whole write sends, and what it leaves the handle with.
use alloyfs.Base.{
  ℕ, ◌+◌, ◌≡◌, ◌≢◌, refl, ap, ◌∙◌, Bool, true, false, Option, none, some, List, [], ◌∷◌, ◌++◌, ◌⊎◌,
  inl, inr, length, arith, ◌==◌, nat_eq, if◌then◌else◌, Bool-cases,
}
use mathlib.Core.Path.{subst}
use alloyfs.Base.Table.{Table, get, insert, get-insert_self}
use alloyfs.Proto.Path.{RelPath}
use alloyfs.Proto.Messages.{Bytes}
use alloyfs.Base.Text.{text_beq, text_beq_iff}
use alloyfs.Client.Effect.{success, Ends, Ends-bind, Ends-step, Ends-result}
use alloyfs.Client.Local.{LocalTree}
use alloyfs.Client.ReadAhead.{clear}
use alloyfs.Client.Overlay.{is_overlay_fh}
use alloyfs.Client.Remote.{OpenState, Outside, Sent}
use alloyfs.Client.Remote.Calls.{Mount, server_fh, mark_path_written, without_fast_path}
use alloyfs.Client.Remote.Files.Poisoned.{check_healthy}
use alloyfs.Client.Remote.Files.{
  check_poisoned, is_poisoned, expected_version, write_remote, write, note_write, known_version,
}
use alloyfs.Client.Remote.Files.Chunks.{
  bytes_at, placed, Accepts, Knows, IsInformed, Wrote, write_chunks_lem,
}

at_start : (a : ℕ) → a + 0 ≡ a
at_start a = omega arith

module _ (t : LocalTree) (out : Outside) (fh server : ℕ) (version : List Sent → ℕ)
    (outside : Accepts out server version) where
  get-without_fast_path :
      (path : RelPath) (files : Table ℕ OpenState) (state : OpenState)
      → get fh files ≡ some state
      → (state' : OpenState) × (get fh (without_fast_path t out path files) ≡ some state')
        × (state'.version ≡ state.version)
        × (state'.wrote ≡ state.wrote)
        × (state.path ≡ path → state'.cache_ok ≡ false)
  unfolding get without_fast_path
  get-without_fast_path path [] state h = cc
  get-without_fast_path path ((k, old) ∷ files) state h = elim (Bool-cases (k == fh)) [
    | inl same ↦ rw same (one_fast_path path old state (rw same at h))
    | inr other ↦ rw other (get-without_fast_path path files state (rw other at h))
  ]
    where
      one_fast_path :
          (path : RelPath) (old state : OpenState)
          → ◌≡◌ {A = Option OpenState} (some old) (some state)
          → (state' : OpenState) × (◌≡◌ {A = Option OpenState}
              (some (
                if text_beq old.path path
                then record old { cache_ok = false; ra = clear old.ra }
                else old))
              (some state'))
            × (state'.version ≡ state.version)
            × (state'.wrote ≡ state.wrote)
            × (state.path ≡ path → state'.cache_ok ≡ false)
      one_fast_path path old state h = elim (Bool-cases (text_beq old.path path)) [
        | inl same ↦ rw same (
          record old { cache_ok = false; ra = clear old.ra },
          refl,
          ground arith,
          ground arith,
          λ e. refl,
        )
        | inr other ↦ rw other (
          old,
          refl,
          ground arith,
          ground arith,
          λ e. absurd (ground (arith, text_beq_iff old.path path)),
        )
      ]

  expected_of :
      (detect : Bool) (state : OpenState) (w : ℕ)
      → state.version ≡ w
      → ((if detect then known_version t out (some state) else none) ≡ none)
        ⊎ (((if detect then known_version t out (some state) else none) ≡ some w)
            × (state.version ≡ w))
  expected_of false state w e = inl refl
  expected_of true state w e = elim (Bool-cases (state.version == 0)) [
    | inl unknown ↦ inl (ground (arith, unknown))
    | inr known ↦ inr (ground (arith, known, e), e)
  ]

  expected-Knows :
      (s : Mount t out) (state : OpenState)
      → get fh s.open_files ≡ some state
      → (expected_version t out fh s ≡ none) ⊎ (state.version ≡ version s.sent)
      → Knows t out fh server version outside (expected_version t out fh s) s
  unfolding expected_version
  expected-Knows s state there (inl e) = record { state = state; there = there; known = inl e }
  expected-Knows s state there (inr e) = record {
    state = state;
    there = there;
    known = rw there (expected_of s.detect_conflicts state (version s.sent) e);
  }

  server_of :
      (s : Mount t out) (state : OpenState)
      → get fh s.open_files ≡ some state
      → server_fh t out s fh ≡ state.server_fh
  unfolding server_fh
  server_of s state there = rw there refl

  -- What a write that went well leaves.
  pub record Written (offset : ℕ) (bytes : Bytes) (s s' : Mount t out) : Type 0 where
    pub sent_all : placed server s'.sent ≡ placed server s.sent ++ bytes_at offset bytes
    pub state : OpenState
    pub there : get fh s'.open_files ≡ some state
    pub learned :
        (bytes ≢ []) ⊎ IsInformed t out fh server version outside s
        → state.version ≡ version s'.sent
    pub wrote : state.wrote ≡ true
    pub uncached : state.cache_ok ≡ false

  noted :
      (expected : Option ℕ) (offset : ℕ) (bytes : Bytes) (s s1 : Mount t out)
      → Wrote t out fh server version outside expected offset bytes s s1
      → Written offset bytes s (note_write t out fh s1)
  unfolding note_write mark_path_written
  noted expected offset bytes s s1 w =
      let marked : OpenState = record w.state { wrote = true } in
      let (state, there, same_version, same_wrote, uncached) =
        get-without_fast_path w.state.path (insert fh marked s1.open_files) marked
          (get-insert_self fh marked s1.open_files) in
      rw (w.there, note_write)
        (record {
          sent_all = w.sent_all;
          state = state;
          there = there;
          learned = λ knew. same_version ∙ w.learned knew;
          wrote = same_wrote;
          uncached = uncached refl;
        })

  write_remote_lem :
      (offset : ℕ) (bytes : Bytes) (s : Mount t out) (state : OpenState)
      → get fh s.open_files ≡ some state
      → state.poisoned ≡ false
      → state.server_fh ≡ server
      → (expected_version t out fh s ≡ none) ⊎ (state.version ≡ version s.sent)
      → Ends
          (λ n s'. (n ≡ length bytes) × Written offset bytes s s')
          (write_remote t out fh offset bytes s)
  unfolding write_remote
  write_remote_lem offset bytes s state there healthy same informed =
      let Post = λ (n : ℕ) (s' : Mount t out). (n ≡ length bytes) × Written offset bytes s s' in
      let sound : is_poisoned t out (get fh s.open_files) ≡ false = rw there healthy in
      let number : server_fh t out s fh ≡ server = server_of s state there ∙ same in
      let expected = expected_version t out fh s in
      Ends-step Post (check_poisoned t out fh) _ s s tt (check_healthy t out fh s sound) (
        Ends-step Post _ _ s s server (ap (λ n. (success n, s)) number) (
          Ends-step Post _ _ s s expected refl (
            Ends-bind
              (λ u s'. Wrote t out fh server version outside expected (offset + 0) bytes s s') Post
              _ _ s
              (write_chunks_lem t out fh server version outside (length bytes) offset 0 bytes
                expected s (omega arith) (expected-Knows s state there informed))
              λ u s1 w. Ends-step Post _ _ s1 (note_write t out fh s1) tt refl (
                refl,
                noted expected offset bytes s s1 (
                    subst (λ p. Wrote t out fh server version outside expected p bytes s s1)
                      (at_start offset) w),
              ))))

  -- While no connection is replaced, the server writes each chunk whole unless it expects another
  -- version than that of the moment, and each answer tells the version after it: a write through an
  -- open handle that is not poisoned succeeds, if no version is to be expected or the handle knows the
  -- server's. Then exactly its bytes were sent under the handle's number, each once, in order and at
  -- its place, in however many chunks; the handle knows the version behind them, unless there were none and it did not know the version
  -- before either, is marked as written, and is
  -- no longer served from a copy.
  pub write-exact :
      (offset : ℕ) (bytes : Bytes) (s : Mount t out) (state : OpenState)
      → is_overlay_fh fh ≡ false
      → get fh s.open_files ≡ some state
      → state.poisoned ≡ false
      → state.server_fh ≡ server
      → (expected_version t out fh s ≡ none) ⊎ (state.version ≡ version s.sent)
      → (s' : Mount t out) × (write t out fh offset bytes s ≡ (success (length bytes), s'))
        × Written offset bytes s s'
  unfolding write
  write-exact offset bytes s state remote there healthy same informed =
      let (n, s', e, q) =
        Ends-result (λ n s'. (n ≡ length bytes) × Written offset bytes s s')
          (write_remote t out fh offset bytes s)
          (write_remote_lem offset bytes s state there healthy same informed) in
      (s', rw (remote, write) (e ∙ ap (λ k. (success k, s')) q.0), q.1)
