-- ===== src/Core/Buffer/Contents.antt =====
-- The buffer against the plain list of bytes that it stands for.
use dtreesync.Base.Strings.{byte_length}
use dtreesync.Base.Strings.Parts.{byte_length-append}
use dtreesync.Base.{
  ◌+◌, ◌≤◌, Bool, true, Option, none, some, List, [], ◌∷◌, ◌++◌, append_assoc, append-nil, ◌≡◌,
  refl, ◌∙◌, sym, ap, ltb, arith, Bool-cases, inl, inr,
}
use dtreesync.Base.Int.{ℤ, pos, negsuc}
use dtreesync.Core.Buffer.{
  new_hybrid_buffer, HybridBuffer, Bytes, Answers, FileWrite, done, failed, write_file, spill_over,
  write_to, write, reader, write_all,
}

-- Memory is bounded, the file replaces the memory, and the size is that of the contents.
pub record IsConsistent (h : HybridBuffer) : Type 0 where
  pub bounded : byte_length h.buf ≤ h.max_mem
  pub one_place : (content : Bytes) → h.file ≡ some content → h.buf ≡ []
  pub size_exact : h.size ≡ byte_length (reader h)

-- Memory stays bounded whatever the system answers.
pub write_bounded :
    (h : HybridBuffer) (p : Bytes) (a : Answers)
    → byte_length h.buf ≤ h.max_mem
    → (byte_length (write h p a).0.buf ≤ (write h p a).0.max_mem)
      × ((write h p a).0.max_mem ≡ h.max_mem)
unfolding write write_to spill_over write_file
write_bounded h p a b = ground (arith, byte_length-append h.buf p)

-- What a write that succeeds leaves.
abbrev Extends : HybridBuffer → Bytes → HybridBuffer × Bool → Type 0
Extends h p (h', ok) =
    ok ≡ true
    → (reader h' ≡ reader h ++ p)
      × (h'.size ≡ h.size)
      × (byte_length h'.buf ≤ h'.max_mem)
      × ((content : Bytes) → h'.file ≡ some content → h'.buf ≡ [])

file-Extends :
    (h g : HybridBuffer) (content p : Bytes) (w : FileWrite)
    → reader g ≡ content
    → h.buf ≡ []
    → h.size ≡ g.size
    → Extends g p (write_file h content p w)
unfolding write_file
file-Extends h g content p done e b z _ = (rw e, z, rw b (omega arith), λ c _. b)
file-Extends h g content p (failed n) e b z k = cc k

memory-Extends :
    (h : HybridBuffer) (p : Bytes) (spill append : FileWrite)
    → h.file ≡ none
    → Extends h p (spill_over h p spill append)
unfolding spill_over
memory-Extends h p done append e =
    file-Extends (record h { buf = [] }) h h.buf p append (rw e) refl refl
memory-Extends h p (failed n) append e = elim (Bool-cases (ltb 0 (byte_length h.buf))) [
  | inl k ↦ rw k (λ z. cc z)
  | inr k ↦ rw k (file-Extends (record h { buf = [] }) h h.buf p append (rw e) refl refl)
]

write_to-Extends :
    (f : Option Bytes) (h : HybridBuffer) (p : Bytes) (a : Answers)
    → h.file ≡ f
    → byte_length h.buf ≤ h.max_mem
    → ((content : Bytes) → h.file ≡ some content → h.buf ≡ [])
    → Extends h p (write_to f h p a)
unfolding write_to
write_to-Extends (some content) h p a e b one =
    file-Extends h h content p a.append (rw e) (one content e) refl
write_to-Extends none h p a e b one =
    elim (Bool-cases (ltb h.max_mem (byte_length h.buf + byte_length p))) [
      | inl k ↦ rw k (elim (Bool-cases a.create) [
        | inl c ↦ rw c (memory-Extends h p a.spill a.append e)
        | inr c ↦ rw c (λ z. cc z)
      ])
      | inr k ↦ rw k (λ _. (
        rw e,
        refl,
        rw (byte_length-append h.buf p) (ground arith),
        λ c z. absurd (ground arith),
      ))
    ]

-- A write that succeeds adds its bytes at the end, whether they stay in memory, move to the file
-- with all before them, or go to the file directly.
pub write_contents :
    (h : HybridBuffer) (p : Bytes) (a : Answers)
    → IsConsistent h
    → (write h p a).1 ≡ true
    → (reader (write h p a).0 ≡ reader h ++ p) × IsConsistent (write h p a).0
unfolding write
write_contents h p a c ok =
    let (r, z, b, one) =
      write_to-Extends h.file (record h { size = h.size + byte_length p }) p a refl c.bounded
        c.one_place ok in
    (
      r,
      record {
        bounded = b;
        one_place = one;
        size_exact =
            z
            ∙ ap (λ n. n + byte_length p) c.size_exact
            ∙ sym (ap byte_length r ∙ byte_length-append (reader h) p);
      },
    )

-- All that was written, in order.
abbrev pub written : List (Bytes × Answers) → Bytes
written [] = []
written ((p, _) ∷ ps) = p ++ written ps

write_all_contents :
    (h : HybridBuffer) (ps : List (Bytes × Answers))
    → IsConsistent h
    → (write_all h ps).1 ≡ true
    → (reader (write_all h ps).0 ≡ reader h ++ written ps) × IsConsistent (write_all h ps).0
unfolding write_all
write_all_contents h [] c _ = (sym (append-nil (reader h)), c)
write_all_contents h ((p, a) ∷ ps) c ok = elim (Bool-cases (write h p a).1) [
  | inr e ↦ cc (e, rw e at ok)
  | inl e ↦
      let (r, c') = write_contents h p a c e in
      let (rs, cs) = write_all_contents (write h p a).0 ps c' (rw e at ok) in
      rw e (rs ∙ ap (λ t. t ++ written ps) r ∙ append_assoc (reader h) p (written ps), cs)
]

pub fresh-IsConsistent : (m : ℤ) → IsConsistent (new_hybrid_buffer m)
unfolding new_hybrid_buffer
fresh-IsConsistent (pos n) = record {
  bounded = omega arith;
  one_place = λ c e. refl;
  size_exact = refl;
}
fresh-IsConsistent (negsuc n) = record {
  bounded = omega arith;
  one_place = λ c e. refl;
  size_exact = refl;
}

fresh_reader : (m : ℤ) → reader (new_hybrid_buffer m) ≡ []
unfolding new_hybrid_buffer
fresh_reader (pos n) = refl
fresh_reader (negsuc n) = refl

-- A new buffer, whatever its memory limit, that takes a sequence of writes without an error yields
-- exactly the bytes that were written, in order, and its size is their number.
pub reader-write_all :
    (limit : ℤ) (ps : List (Bytes × Answers))
    → (write_all (new_hybrid_buffer limit) ps).1 ≡ true
    → (reader (write_all (new_hybrid_buffer limit) ps).0 ≡ written ps)
      × ((write_all (new_hybrid_buffer limit) ps).0.size ≡ byte_length (written ps))
reader-write_all limit ps ok =
    let (r, c) = write_all_contents (new_hybrid_buffer limit) ps (fresh-IsConsistent limit) ok in
    let all : reader (write_all (new_hybrid_buffer limit) ps).0 ≡ written ps =
      r ∙ ap (λ t. t ++ written ps) (fresh_reader limit) in
    (all, c.size_exact ∙ ap byte_length all)

-- Whatever the system answers, also when a write fails, the memory in use stays below the limit.
pub write_all_bounded :
    (h : HybridBuffer) (ps : List (Bytes × Answers))
    → byte_length h.buf ≤ h.max_mem
    → byte_length (write_all h ps).0.buf ≤ h.max_mem
unfolding write_all
write_all_bounded h [] b = b
write_all_bounded h ((p, a) ∷ ps) b =
    let (low, same) = write_bounded h p a b in
    elim (Bool-cases (write h p a).1) [
      | inr e ↦ rw e (omega arith)
      | inl e ↦ rw e (omega (arith, write_all_bounded (write h p a).0 ps low))
    ]
