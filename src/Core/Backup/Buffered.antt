-- ===== src/Core/Backup/Buffered.antt =====
-- internal/core/backup.go: the payload buffer and the hasher take the whole payload if no write fails.
use dtreesync.Base.{
  Text, ℕ, ◌+◌, Bool, true, false, Option, none, some, List, [], ◌∷◌, ◌++◌, append_assoc,
  append-nil, ◌≡◌, refl, ◌∙◌, ap, text_eq, nat_eq, arith,
}
use dtreesync.Base.Int.{pos}
use dtreesync.Base.Strings.{byte_length}
use dtreesync.Model.Types.{Result, ok}
use dtreesync.Core.Buffer.{
  HybridBuffer, done, Answers, new_hybrid_buffer, write, write_to, spill_over, write_file, reader,
}
use dtreesync.Core.Buffer.Contents.{IsConsistent, write_contents, fresh-IsConsistent}
use dtreesync.Core.Backup.{World, Payload, tee, unless_failed, tee_all, flush, buffer_payload}

abbrev pub all_done : Answers
all_done = record { create = true; spill = done; append = done }

abbrev pub join_chunks : List Text → Text
join_chunks [] = []
join_chunks (c ∷ cs) = c ++ join_chunks cs

-- Every write succeeds, and a `bufio.Writer` passes on what it is given.
pub record IsReliable (world : World) : Type 0 where
  pub writes : (n : ℕ) → world.answers n ≡ all_done
  pub passes_on :
      (text : Text) → join_chunks (world.buffered text).0 ++ (world.buffered text).1 ≡ text
  pub header_taken : world.header_writes ≡ true
  pub header_written : world.header_write ≡ done
  pub payload_written : world.payload_write ≡ true
  pub closed : world.closes ≡ true

write_done : (h : HybridBuffer) (p : Text) → (write h p all_done).1 ≡ true
unfolding write
write_done h p = go h.file (record h { size = h.size + byte_length p })
  where
    go : (f : Option Text) (g : HybridBuffer) → (write_to f g p all_done).1 ≡ true
    go (some content) g = unfold write_to write_file in refl
    go none g = unfold write_to spill_over write_file in ground arith

-- The buffer and the hasher have taken the text.
pub record Holds (p : Payload) (text : Text) : Type 0 where
  pub read_back : reader p.buffer ≡ text
  pub hashed : p.hashed ≡ text
  pub consistent : IsConsistent p.buffer

went_on :
    (k : Payload → Result Payload) (x : Payload × Bool) → x.1 ≡ true → unless_failed k x ≡ k x.0
went_on k (q, true) _ = refl
went_on k (q, false) h = absurd (cc h)

module _ (answers : ℕ → Answers) (works : (n : ℕ) → answers n ≡ all_done) where
  tee-Holds :
      (p : Payload) (text chunk : Text)
      → Holds p text
      → ((tee answers p chunk).1 ≡ true) × Holds (tee answers p chunk).0 (text ++ chunk)
  unfolding tee
  tee-Holds p text chunk h =
      let is_ok : (write p.buffer chunk (answers p.writes)).1 ≡ true =
        rw (works p.writes) (write_done p.buffer chunk) in
      let (r, c) = write_contents p.buffer chunk (answers p.writes) h.consistent is_ok in
      (
        is_ok,
        record {
          read_back = r ∙ ap (λ t. t ++ chunk) h.read_back;
          hashed = rw is_ok (ap (λ t. t ++ chunk) h.hashed);
          consistent = c;
        },
      )

  tee_all-Holds :
      (p : Payload) (text : Text) (chunks : List Text)
      → Holds p text
      → (q : Payload) × (tee_all answers p chunks ≡ ok q) × Holds q (text ++ join_chunks chunks)
  unfolding tee_all
  tee_all-Holds p text [] h = (p, refl, rw append-nil h)
  tee_all-Holds p text (chunk ∷ chunks) h =
      let (is_ok, k) = tee-Holds p text chunk h in
      let (q, e, z) = tee_all-Holds (tee answers p chunk).0 (text ++ chunk) chunks k in
      (
        q,
        went_on (λ x. tee_all answers x chunks) (tee answers p chunk) is_ok ∙ e,
        (rw append_assoc at z),
      )

  flush-Holds :
      (p : Payload) (text chunk : Text)
      → Holds p text
      → Holds (flush answers p chunk) (text ++ chunk)
  unfolding flush
  flush-Holds p text [] h = rw append-nil h
  flush-Holds p text (c ∷ chunk) h = (tee-Holds p text (c ∷ chunk) h).1

fresh_reader : reader (new_hybrid_buffer (pos 16777216)) ≡ []
unfolding new_hybrid_buffer
fresh_reader = refl

pub buffer_payload-Holds :
    (world : World) (text : Text)
    → IsReliable world
    → (p : Payload) × (buffer_payload world text ≡ ok p) × Holds p text
unfolding buffer_payload
buffer_payload-Holds world text h =
    let fresh : Holds
        (record { buffer = new_hybrid_buffer (pos 16777216); hashed = []; writes = 0 }) [] =
      record {
        read_back = fresh_reader;
        hashed = refl;
        consistent = fresh-IsConsistent (pos 16777216);
      } in
    let (q, e, k) = tee_all-Holds world.answers h.writes _ [] (world.buffered text).0 fresh in
    (
      flush world.answers q (world.buffered text).1,
      rw e,
      rw (h.passes_on text) at (flush-Holds world.answers h.writes q _ (world.buffered text).1 k),
    )
