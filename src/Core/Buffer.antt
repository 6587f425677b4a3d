-- ===== src/Core/Buffer.antt =====
-- internal/core/backup.go, `hybridBuffer`: a byte buffer that moves to a temporary file when it
-- outgrows its memory. Bytes are given as a text, whose size is that of its UTF-8 form; a write that fails
-- midway stops between two characters. Each call says what the system did.
pub mod Contents
use dtreesync.Base.Strings.{byte_length}
use dtreesync.Base.{
  ℕ, ◌+◌, ◌*◌, Bool, true, false, Option, none, some, List, [], ◌∷◌, ◌++◌, ltb, take, if◌then◌else◌,
  Text,
}
use dtreesync.Base.Int.{ℤ, pos, negsuc}

abbrev pub Bytes : Type 0
Bytes = Text

pub record HybridBuffer : Type 0 where
  pub max_mem : ℕ
  pub buf : Bytes
  pub file : Option Bytes
  pub size : ℕ

abbrev pub default_mem : ℕ
default_mem = 16 * 1024 * 1024

unfoldable pub new_hybrid_buffer : ℤ → HybridBuffer
new_hybrid_buffer (negsuc n) = record { max_mem = default_mem; buf = []; file = none; size = 0 }
new_hybrid_buffer (pos n) = record {
  max_mem = (if ltb 0 n then n else default_mem);
  buf = [];
  file = none;
  size = 0;
}

-- What a write to a file did: all of it, or so many bytes and an error.
pub data FileWrite : Type 0 where
  done : FileWrite
  failed : ℕ → FileWrite

-- The system's answers during one call of `Write`.
pub record Answers : Type 0 where
  pub create : Bool
  pub spill : FileWrite
  pub append : FileWrite

-- The second component is the absence of an error.
unfoldable pub write_file : HybridBuffer → Bytes → Bytes → FileWrite → HybridBuffer × Bool
write_file h content p done = (record h { file = some (content ++ p) }, true)
write_file h content p (failed n) = (record h { file = some (content ++ take n p) }, false)

-- The buffer is copied to the new file; a copy that fails leaves the buffer in memory.
unfoldable pub spill_over : HybridBuffer → Bytes → FileWrite → FileWrite → HybridBuffer × Bool
unfolding write_file
spill_over h p done append = write_file (record h { buf = [] }) h.buf p append
spill_over h p (failed n) append =
    if ltb 0 (byte_length h.buf)
    then (h, false)
    else write_file (record h { buf = [] }) h.buf p append

unfoldable pub write_to : Option Bytes → HybridBuffer → Bytes → Answers → HybridBuffer × Bool
unfolding write_file spill_over
write_to (some content) h p a = write_file h content p a.append
write_to none h p a =
    if ltb h.max_mem (byte_length h.buf + byte_length p)
    then (if a.create then spill_over h p a.spill a.append else (h, false))
    else (record h { buf = h.buf ++ p }, true)

unfoldable pub write : HybridBuffer → Bytes → Answers → HybridBuffer × Bool
unfolding write_to
write h p a = write_to h.file (record h { size = h.size + byte_length p }) p a

-- What the reader yields.
abbrev pub reader : HybridBuffer → Bytes
reader h = elim (h.file) [ none ↦ h.buf | some content ↦ content ]

-- `Close` drops the file.
abbrev pub close : HybridBuffer → HybridBuffer
close h = record h { file = none }

-- Writes up to the first error.
unfoldable pub write_all : HybridBuffer → List (Bytes × Answers) → HybridBuffer × Bool
unfolding write
write_all h [] = (h, true)
write_all h ((p, a) ∷ ps) =
    let (h', ok) = write h p a in let rest = write_all h' ps in if ok then rest else (h', false)
