-- ===== src/Tools/Stream/Accounts.antt =====
-- The accounts of the rolling window and its bounds.
use ultranix_mcp.Prelude.{
  ltb, leb, nat_eq, string_eq, Bool-cases, length, drop, ℕ, zero, suc, ◌+◌, ◌-◌, ◌≤◌, ◌<◌, ◌≡◌,
  refl, ◌∙◌, inl, inr, true, false, ◌||◌, List, [], ◌∷◌, arith,
}
use ultranix_mcp.Tools.Stream.{Entry, StreamState, evict}

abbrev pub total : List Entry → ℕ
total [] = 0
total (e ∷ es) = e.bytes + total es

module _ (max_frames max_bytes : ℕ) where
  -- The window's bytes are those of its frames and within the budget, its frames are within the
  -- limit, and what the stream reports of it is within both.
  pub record IsWithin (st : StreamState) : Type 0 where
    pub accounted : st.buffered_bytes ≡ total st.frames
    pub few_bytes : st.buffered_bytes ≤ max_bytes
    pub few_frames : length st.frames ≤ max_frames
    pub reported_bytes : st.stats.buffered_bytes ≤ max_bytes
    pub reported_frames : st.stats.buffered_frames ≤ max_frames

  -- There is room for a frame of a size.
  abbrev pub Fits : ℕ → List Entry → Type 0
  Fits size [] = Unit
  Fits size (e ∷ es) = (length (e ∷ es) < max_frames) × (total (e ∷ es) + size ≤ max_bytes)

  pub record IsLeast (size : ℕ) (st room : StreamState) : Type 0 where
    pub gone : ℕ
    pub left : room.frames ≡ drop gone st.frames
    pub counted : room.dropped ≡ st.dropped + gone
    pub fits : Fits size room.frames
    pub least : (j : ℕ) → j < gone → ¬ Fits size (drop j st.frames)
    pub summed : room.buffered_bytes ≡ total room.frames
    pub same_stats : room.stats ≡ st.stats
    pub same_seq : room.seq ≡ st.seq

  not_fitting :
      (size buffered : ℕ) (old : Entry) (frames : List Entry)
      → buffered ≡ total (old ∷ frames)
      → (leb max_frames (length (old ∷ frames)) || ltb max_bytes (buffered + size)) ≡ true
      → ¬ Fits size (old ∷ frames)
  not_fitting size buffered old frames e full_up (few, small) = ground arith

  fitting :
      (size buffered : ℕ) (old : Entry) (frames : List Entry)
      → buffered ≡ total (old ∷ frames)
      → (leb max_frames (length (old ∷ frames)) || ltb max_bytes (buffered + size)) ≡ false
      → Fits size (old ∷ frames)
  fitting size buffered old frames e room = (ground arith, ground arith)

  earlier :
      (size n : ℕ) (old : Entry) (frames : List Entry)
      → ¬ Fits size (old ∷ frames)
      → ((j : ℕ) → j < n → ¬ Fits size (drop j frames))
      → (j : ℕ) → j < suc n
      → ¬ Fits size (drop j (old ∷ frames))
  earlier size n old frames first rest zero lt = first
  earlier size n old frames first rest (suc j) lt = rest j (omega arith)

  -- The eviction before a frame drops the fewest of the oldest frames that leave room: what stays is
  -- the rest of the window, it is empty or the frame fits with it in both limits, with any smaller
  -- number of frames dropped it would not, and each frame that goes is counted as dropped.
  pub evict-IsLeast :
      (size : ℕ) (frames : List Entry) (st : StreamState)
      → st.buffered_bytes ≡ total frames
      → IsLeast size (record st { frames = frames }) (evict max_frames max_bytes size frames st)
  unfolding evict
  evict-IsLeast size [] st e = record {
    gone = 0;
    left = refl;
    counted = omega arith;
    fits = tt;
    least = λ j lt. absurd (omega arith);
    summed = e;
    same_stats = refl;
    same_seq = refl;
  }
  evict-IsLeast size (old ∷ frames) st e =
      elim (Bool-cases
        (leb max_frames (length (old ∷ frames)) || ltb max_bytes (st.buffered_bytes + size))) [
          | inl full_up ↦
              let h =
                evict-IsLeast size frames
                  (record st {
                    buffered_bytes = st.buffered_bytes - old.bytes;
                    dropped = suc st.dropped;
                  })
                  (omega arith) in
              rw full_up (record {
                gone = suc h.gone;
                left = h.left;
                counted = h.counted ∙ omega arith;
                fits = h.fits;
                least = λ j lt.
                    earlier size h.gone old frames
                      (not_fitting size st.buffered_bytes old frames e full_up) h.least j lt;
                summed = h.summed;
                same_stats = h.same_stats;
                same_seq = h.same_seq;
              })
          | inr room ↦ rw room (record {
            gone = 0;
            left = refl;
            counted = omega arith;
            fits = fitting size st.buffered_bytes old frames e room;
            least = λ j lt. absurd (omega arith);
            summed = e;
            same_stats = refl;
            same_seq = refl;
          })
        ]
