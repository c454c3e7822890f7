-- ===== src/PcapIo/Batch.antt =====
-- WriteBatch of src/pcap_io.rs: records are gathered and written in batches. The writer is the
-- bytes written so far and does not fail.
use rust_pcaprune.Prelude.{
  ℕ, ◌+◌, ◌*◌, ◌≤◌, ◌≡◌, refl, sym, ap, ◌∙◌, Bool, true, false, ◌&&◌, not, [], ◌∷◌, ◌++◌, ltb,
  if◌then◌else◌, length, Bytes, ◌⊎◌, inl, inr, arith, Bool-cases, ltb-false, length-append,
  append-nil, append_assoc,
}
use rust_pcaprune.PcapIo.Base.{Limits, account_io}

abbrev pub write_batch_cap : ℕ
write_batch_cap = 512 * 1024

-- The batch with the writer and the limits that it holds by reference.
pub record WriteBatch : Type 0 where
  pub buf : Bytes
  pub written : Bytes
  pub limits : Limits

-- `buf.is_empty()`
abbrev pub is_empty : Bytes → Bool
is_empty [] = true
is_empty (x ∷ xs) = false

unfoldable pub flush : WriteBatch → WriteBatch
flush w = if is_empty w.buf then w else record w {
  buf = [];
  written = w.written ++ w.buf;
  limits = account_io w.limits (length w.buf);
}

unfoldable pub write_record : WriteBatch → Bytes → Bytes → WriteBatch
write_record w rec_hdr frame =
    let need = 16 + length frame in
    let full = not (is_empty w.buf) && ltb write_batch_cap (length w.buf + need) in
    let w' = if full then flush w else w in record w' { buf = w'.buf ++ (rec_hdr ++ frame) }

-- What the file will hold once the batch is flushed.
abbrev pub content : WriteBatch → Bytes
content w = w.written ++ w.buf

pub content-flush : (w : WriteBatch) → (content (flush w) ≡ content w) × ((flush w).buf ≡ [])
unfolding flush
content-flush w = ground (arith, append-nil (w.written ++ w.buf))

pub content-write_record :
    (w : WriteBatch) (rec_hdr frame : Bytes)
    → content (write_record w rec_hdr frame) ≡ content w ++ (rec_hdr ++ frame)
unfolding write_record
content-write_record w rec_hdr frame =
    elim (Bool-cases
      (not (is_empty w.buf) && ltb write_batch_cap (length w.buf + (16 + length frame)))) [
        | inl full ↦ rw full (
            sym (append_assoc (flush w).written (flush w).buf (rec_hdr ++ frame))
            ∙ ap (λ (x : Bytes). x ++ (rec_hdr ++ frame)) (content-flush w).0)
        | inr room ↦ rw room (sym (append_assoc w.written w.buf (rec_hdr ++ frame)))
      ]

buffered :
    (buf : Bytes) (n : ℕ)
    → (not (is_empty buf) && ltb write_batch_cap n) ≡ false
    → (buf ≡ []) ⊎ (n ≤ write_batch_cap)
buffered [] n e = inl refl
buffered (x ∷ xs) n e = inr (ltb-false write_batch_cap n e)

buf-write_record :
    (w : WriteBatch) (rec_hdr frame : Bytes)
    → length rec_hdr ≡ 16
    → (length (write_record w rec_hdr frame).buf ≤ write_batch_cap)
      ⊎ ((write_record w rec_hdr frame).buf ≡ rec_hdr ++ frame)
unfolding write_record
buf-write_record w rec_hdr frame h =
    elim (Bool-cases
      (not (is_empty w.buf) && ltb write_batch_cap (length w.buf + (16 + length frame)))) [
        | inl full ↦ inr (rw full (ap (λ (x : Bytes). x ++ (rec_hdr ++ frame)) (content-flush w).1))
        | inr room ↦ elim (buffered w.buf (length w.buf + (16 + length frame)) room) [
          | inl e ↦ inr (rw (room, e) refl)
          | inr le ↦ inl (
              rw room (
                omega (arith, length-append w.buf (rec_hdr ++ frame), length-append rec_hdr frame)))
        ]
      ]

-- Batching is invisible and bounded: whenever it flushes, the file's content grows by the record,
-- and the buffer never holds more than its capacity, unless one record alone does.
pub write_record_lem :
    (w : WriteBatch) (rec_hdr frame : Bytes)
    → length rec_hdr ≡ 16
    → (content (write_record w rec_hdr frame) ≡ content w ++ (rec_hdr ++ frame))
      × ((length (write_record w rec_hdr frame).buf ≤ write_batch_cap)
          ⊎ ((write_record w rec_hdr frame).buf ≡ rec_hdr ++ frame))
write_record_lem w rec_hdr frame h =
    (content-write_record w rec_hdr frame, buf-write_record w rec_hdr frame h)
