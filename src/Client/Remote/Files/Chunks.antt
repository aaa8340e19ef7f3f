-- ===== src/Client/Remote/Files/Chunks.antt =====
-- The loop of `write` over its chunks: what it sends, byte by byte, and what the handle learns.
use alloyfs.Base.{
  ℕ, zero, suc, ◌+◌, ◌≤◌, ◌<◌, ◌≡◌, ◌≢◌, refl, ap, sym, ◌∙◌, false, Option, none, some, List, [],
  ◌∷◌, ◌++◌, ◌⊎◌, inl, inr, length, length-append, take, drop, take-append-drop_taken, arith, ◌==◌,
  ==_iff, nat_eq, if◌then◌else◌,
}
use mathlib.Core.List.{append_assoc, append-nil}
use mathlib.Core.Path.{subst}
use alloyfs.Base.Table.{get, get-insert_self}
use alloyfs.Proto.Errors.{ok}
use alloyfs.Proto.Messages.{Bytes, Request, Response, data_chunk}
use alloyfs.Client.Effect.{success, ◌>>=◌, Ends, Ends-step, Ends-map}
use alloyfs.Client.Local.{LocalTree}
use alloyfs.Client.Remote.{OpenState, answered, Outside, Sent}
use alloyfs.Client.Remote.Calls.{Mount, ask, call, send, resume, is_retryable, as_written}
use alloyfs.Client.Remote.Files.{update_handle, next_expected, chunk_of, write_chunks}

-- Each byte with its place.
abbrev pub bytes_at : ℕ → Bytes → List (ℕ × ℕ)
bytes_at place [] = []
bytes_at place (b ∷ bs) = (place, b) ∷ bytes_at (place + 1) bs

-- The bytes that a request writes under a number of the server, with their places.
abbrev pub placed_by : ℕ → Request → List (ℕ × ℕ)
placed_by server (Request.write fh offset bytes expected) =
    if fh == server then bytes_at offset bytes else []
placed_by server _ = []

-- All that was written under the number, in the order in which it was sent.
abbrev pub placed : ℕ → List Sent → List (ℕ × ℕ)
placed server [] = []
placed server ((conn, req) ∷ log) = placed server log ++ placed_by server req

-- No reconnection comes between, and a chunk is written whole if no version is expected, or the
-- version of the moment is; the answer tells the version after it.
pub record Accepts (out : Outside) (server : ℕ) (version : List Sent → ℕ) : Type 0 where
  pub steady : (sent replayed : List Sent) → out.redialled sent replayed ≡ none
  pub accepts :
      (sent replayed : List Sent) (conn offset : ℕ) (chunk : Bytes) (expected : Option ℕ)
      → (expected ≡ none) ⊎ (expected ≡ some (version sent))
      → out.reply sent replayed conn (Request.write server offset chunk expected)
        ≡ answered (
            ok (
              Response.written
                (length chunk)
                (version ((conn, Request.write server offset chunk expected) ∷ sent))
                false))

bytes_at-append :
    (place : ℕ) (xs ys : Bytes)
    → bytes_at place (xs ++ ys) ≡ bytes_at place xs ++ bytes_at (place + length xs) ys
bytes_at-append place [] ys = ap (λ p. bytes_at p ys) (omega arith)
bytes_at-append place (x ∷ xs) ys = ap (◌∷◌ (place, x)) (
    bytes_at-append (place + 1) xs ys
    ∙ ap (λ p. bytes_at (place + 1) xs ++ bytes_at p ys) (omega arith))

pos-ne-zero : (n : ℕ) → 0 < n → (n == 0) ≡ false
pos-ne-zero n h = ground arith

sum_of : (a b c : ℕ) → a + (b + c) ≡ a + b + c
sum_of a b c = omega arith

length-take-pos : (c b : ℕ) (bs : Bytes) → 0 < c → 0 < length (take c (b ∷ bs))
length-take-pos zero b bs h = absurd (omega arith)
length-take-pos (suc c) b bs h = omega arith

length-chunk_of-pos : (b : ℕ) (bs : Bytes) → 0 < length (chunk_of (b ∷ bs))
unfolding chunk_of
length-chunk_of-pos b bs = length-take-pos data_chunk b bs (omega arith)

chunk_of-append-drop : (xs : Bytes) → chunk_of xs ++ drop (length (chunk_of xs)) xs ≡ xs
unfolding chunk_of
chunk_of-append-drop xs = take-append-drop_taken data_chunk xs

rest-shorter :
    (fuel b : ℕ) (bs : Bytes)
    → length (b ∷ bs) ≤ suc fuel
    → length (drop (length (chunk_of (b ∷ bs))) (b ∷ bs)) ≤ fuel
rest-shorter fuel b bs h = omega (
  arith,
  length-append (chunk_of (b ∷ bs)) (drop (length (chunk_of (b ∷ bs))) (b ∷ bs)),
  ap length (chunk_of-append-drop (b ∷ bs)),
  length-chunk_of-pos b bs,
)

module _ (t : LocalTree) (out : Outside) (fh server : ℕ) (version : List Sent → ℕ)
    (outside : Accepts out server version) where
  -- The handle is open; if a version is expected, it is the server's, and the handle knows it.
  pub record Knows (expected : Option ℕ) (s : Mount t out) : Type 0 where
    pub state : OpenState
    pub there : get fh s.open_files ≡ some state
    pub known :
        (expected ≡ none) ⊎ ((expected ≡ some (version s.sent)) × (state.version ≡ version s.sent))

  abbrev expected_known :
      (expected : Option ℕ) (s : Mount t out)
      → Knows expected s
      → (expected ≡ none) ⊎ (expected ≡ some (version s.sent))
  expected_known expected s k = elim k.known [ inl e ↦ inl e | inr (e, v) ↦ inr e ]

  abbrev request : ℕ → Bytes → Option ℕ → Request
  request place chunk expected = Request.write server place chunk expected

  abbrev after : ℕ → Bytes → Option ℕ → Mount t out → Mount t out
  after place chunk expected s = record s { sent = (s.conn, request place chunk expected) ∷ s.sent }

  ask_lem :
      (place : ℕ) (chunk : Bytes) (expected : Option ℕ) (s : Mount t out)
      → (expected ≡ none) ⊎ (expected ≡ some (version s.sent))
      → ask t out (request place chunk expected) as_written s ≡ (
        success (length chunk, version (after place chunk expected s).sent),
        after place chunk expected s,
      )
  unfolding ask call send ◌>>=◌ is_retryable
  ask_lem place chunk expected s k =
      rw
        (
          outside.steady ((s.conn, request place chunk expected) ∷ s.sent) s.replayed,
          outside.accepts s.sent s.replayed s.conn place chunk expected k,
          resume,
        )
        refl

  -- The handle knows the version of the server.
  pub record IsInformed (s : Mount t out) : Type 0 where
    pub state : OpenState
    pub there : get fh s.open_files ≡ some state
    pub known : state.version ≡ version s.sent

  -- Behind a loop that began with `expected` and had `rest` to write at `place`.
  pub record Wrote (expected : Option ℕ) (place : ℕ) (rest : Bytes) (s s' : Mount t out)
      : Type 0 where
    pub state : OpenState
    pub there : get fh s'.open_files ≡ some state
    pub learned : (rest ≢ []) ⊎ IsInformed s → state.version ≡ version s'.sent
    pub sent_all : placed server s'.sent ≡ placed server s.sent ++ bytes_at place rest

  still_known :
      (s : Mount t out) (state : OpenState)
      → get fh s.open_files ≡ some state
      → (◌≢◌ {A = Bytes} [] []) ⊎ IsInformed s
      → state.version ≡ version s.sent
  still_known s state there (inl some_bytes) = absurd (some_bytes refl)
  still_known s state there (inr i) = let e = sym there ∙ i.there in ap version_of e ∙ i.known
    where
      version_of : Option OpenState → ℕ
      version_of none = 0
      version_of (some o) = o.version

  nothing_to_write :
      (expected : Option ℕ) (place : ℕ) (s : Mount t out)
      → Knows expected s
      → Wrote expected place [] s s
  nothing_to_write expected place s k = record {
    state = k.state;
    there = k.there;
    learned = λ knew. still_known s k.state k.there knew;
    sent_all = sym (append-nil (placed server s.sent));
  }

  set_version : ℕ → OpenState → OpenState
  set_version v state = record state { version = v }

  abbrev learn : ℕ → Mount t out → Mount t out
  learn v s = update_handle t out fh (λ state. record state { version = v }) s

  learn-Knows :
      (expected : Option ℕ) (v : ℕ) (s : Mount t out) (state : OpenState)
      → get fh s.open_files ≡ some state
      → v ≡ version s.sent
      → (learn v s).sent ≡ s.sent × Knows (next_expected t out expected v) (learn v s)
  unfolding update_handle
  learn-Knows none v s state there e =
      rw (there, update_handle)
        (
          refl,
          record {
            state = record state { version = v };
            there = get-insert_self fh _ s.open_files;
            known = inl refl;
          },
        )
  learn-Knows (some w) v s state there e =
      rw (there, update_handle)
        (
          refl,
          record {
            state = record state { version = v };
            there = get-insert_self fh _ s.open_files;
            known = inr (ap some e, e);
          },
        )

  learn-IsInformed :
      (v : ℕ) (s : Mount t out) (state : OpenState)
      → get fh s.open_files ≡ some state
      → v ≡ version s.sent
      → IsInformed (learn v s)
  unfolding update_handle
  learn-IsInformed v s state there e =
      rw (there, update_handle)
        (record {
          state = record state { version = v };
          there = get-insert_self fh _ s.open_files;
          known = e;
        })

  placed_chunk :
      (place : ℕ) (chunk : Bytes) (expected : Option ℕ) (s : Mount t out)
      → placed server (after place chunk expected s).sent
        ≡ placed server s.sent ++ bytes_at place chunk
  placed_chunk place chunk expected s = ground (arith, ==_iff server server)

  -- One chunk, and what the loop makes of the others.
  join_Wrote :
      (expected expected' : Option ℕ) (place : ℕ) (chunk rest : Bytes) (s s1 s' : Mount t out)
      → IsInformed s1
      → placed server s1.sent ≡ placed server s.sent ++ bytes_at place chunk
      → Wrote expected' (place + length chunk) rest s1 s'
      → Wrote expected place (chunk ++ rest) s s'
  join_Wrote expected expected' place chunk rest s s1 s' informed first w = record {
    state = w.state;
    there = w.there;
    learned = λ knew. w.learned (inr informed);
    sent_all =
        w.sent_all
        ∙ ap (λ l. l ++ bytes_at (place + length chunk) rest) first
        ∙ append_assoc (placed server s.sent) (bytes_at place chunk) _
        ∙ ap (◌++◌ (placed server s.sent)) (sym (bytes_at-append place chunk rest));
  }

  pub write_chunks_lem :
      (fuel offset pos : ℕ) (rest : Bytes) (expected : Option ℕ) (s : Mount t out)
      → length rest ≤ fuel
      → Knows expected s
      → Ends
          (λ u s'. Wrote expected (offset + pos) rest s s')
          (write_chunks t out fuel fh server offset pos rest expected s)
  unfolding write_chunks
  write_chunks_lem zero offset pos [] expected s f k = nothing_to_write expected (offset + pos) s k
  write_chunks_lem (suc fuel) offset pos [] expected s f k =
      nothing_to_write expected (offset + pos) s k
  write_chunks_lem zero offset pos (b ∷ bs) expected s f k = absurd (omega arith)
  write_chunks_lem (suc fuel) offset pos (b ∷ bs) expected s f k =
      let chunk = chunk_of (b ∷ bs) in
      let rest = drop (length chunk) (b ∷ bs) in
      let s1 = after (offset + pos) chunk expected s in
      let v = version s1.sent in
      let (same, k2) = learn-Knows expected v s1 k.state k.there refl in
      let Post = λ (u : Unit {0}) (s' : Mount t out). Wrote expected (offset + pos) (b ∷ bs) s s' in
      let chunk_sent : placed server (learn v s1).sent
          ≡ placed server s.sent ++ bytes_at (offset + pos) chunk =
        ap (placed server) same ∙ placed_chunk (offset + pos) chunk expected s in
      Ends-step Post (ask t out (request (offset + pos) chunk expected) as_written) _ s s1
        (length chunk, v) (ask_lem (offset + pos) chunk expected s (expected_known expected s k))
        (Ends-step Post _ _ s1 (learn v s1) tt refl (
          Ends-step Post _ _ (learn v s1) (learn v s1) tt
            (rw (pos-ne-zero (length chunk) (length-chunk_of-pos b bs)) refl)
            (Ends-map
              (λ u s'.
                Wrote (next_expected t out expected v) (offset + (pos + length chunk)) rest
                  (learn v s1) s')
              Post _
              (write_chunks_lem fuel offset (pos + length chunk) rest
                (next_expected t out expected v) (learn v s1) (rest-shorter fuel b bs f) k2)
              λ u s' w.
                subst (λ bytes. Wrote expected (offset + pos) bytes s s')
                  (chunk_of-append-drop (b ∷ bs))
                  (join_Wrote expected (next_expected t out expected v) (offset + pos) chunk rest s
                    (learn v s1) s' (learn-IsInformed v s1 k.state k.there refl) chunk_sent
                    (subst (λ p. Wrote (next_expected t out expected v) p rest (learn v s1) s')
                      (sum_of offset pos (length chunk)) w)))))
