-- ===== src/Ssz/Canonical.antt =====
-- The byte strings that decode, against the encodings.
use kaysentinel.Base.{
  ℕ, zero, suc, ◌-◌, ◌*◌, ◌/◌, ◌%◌, ◌≤◌, ◌<◌, ◌≡◌, refl, sym, ap, ◌∙◌, List, [], ◌∷◌, ◌++◌, ok,
  arith, length, take, drop, slice, >>=-eq-ok, subst, length-drop, take_all, take-append-drop,
  All-take, All-drop, All-slice, slice-append-drop, length-slice,
}
use kaysentinel.Base.Classes.{Bytes, nat_eq}
use kaysentinel.Ssz.Integers.{to_le_bytes, from_le_bytes, IsBytes, to-from_le_bytes}
use kaysentinel.Ssz.Encode.{
  CanonicalEventSummary, summary_encoded_len, encode_summary, EpochStateSnapshot, fixed_header_len,
  encode_summaries, encode_snapshot, max_event_summaries,
}
use kaysentinel.Ssz.Decode.{
  read_u64_le, read_u32_le, decode_summary, decode_chunks, decode_snapshot,
}
use kaysentinel.Ssz.RoundTrip.{to_le_bytes-read_u64_le}

-- What an integer read from a slice of eight (or four) bytes writes.
pub write_u64_slice :
    (a b : ℕ) (bytes : Bytes)
    → IsBytes bytes
    → a ≤ b
    → b ≤ length bytes
    → b - a ≡ 8
    → to_le_bytes 8 (read_u64_le (slice a b bytes)) ≡ slice a b bytes
write_u64_slice a b bytes v h k e =
    to_le_bytes-read_u64_le (slice a b bytes) (All-slice (λ x. x < 256) a b bytes v)
      (length-slice a b bytes h k ∙ e)

pub write_u32_slice :
    (a b : ℕ) (bytes : Bytes)
    → IsBytes bytes
    → a ≤ b
    → b ≤ length bytes
    → b - a ≡ 4
    → to_le_bytes 4 (read_u32_le (slice a b bytes)) ≡ slice a b bytes
unfolding read_u32_le
write_u32_slice a b bytes v h k e =
    let n = length-slice a b bytes h k ∙ e in
    ap (λ t. to_le_bytes 4 (from_le_bytes t)) (take_all 4 (slice a b bytes) n)
    ∙ to-from_le_bytes 4 (slice a b bytes) (All-slice (λ x. x < 256) a b bytes v) n

-- The last slice of a string that ends with it.
pub slice_last :
    (a b : ℕ) (bytes : Bytes) → a ≤ b → length bytes ≡ b → slice a b bytes ≡ drop a bytes
slice_last a b bytes h e = take_all (b - a) (drop a bytes) (omega (arith, length-drop a bytes))

-- Appending to a slice what is known of the rest.
pub join :
    (a b : ℕ) (bytes front rest : Bytes)
    → a ≤ b
    → front ≡ slice a b bytes
    → rest ≡ drop b bytes
    → front ++ rest ≡ drop a bytes
join a b bytes front rest h p q = rw (p, q) (slice-append-drop a b bytes h)

summary_decoded :
    (bytes : Bytes) (s : CanonicalEventSummary)
    → decode_summary bytes ≡ ok s
    → (length bytes ≡ 68)
      × (s ≡ record {
        block_timestamp = read_u64_le (slice 0 8 bytes);
        sequence_nonce = read_u64_le (slice 8 16 bytes);
        actor_address = slice 16 36 bytes;
        payload_digest = slice 36 68 bytes;
      })
unfolding decode_summary
summary_decoded bytes s h = ground arith

-- A byte string that decodes to a summary is the summary's encoding, so no two byte strings decode
-- to the same summary.
pub encode-decode_summary :
    (bytes : Bytes) (s : CanonicalEventSummary)
    → IsBytes bytes
    → decode_summary bytes ≡ ok s
    → encode_summary s ≡ bytes
unfolding encode_summary
encode-decode_summary bytes s v h =
    let (n, e) = summary_decoded bytes s h in
    rw e (
      join 0 8 bytes _ _ (omega arith)
        (write_u64_slice 0 8 bytes v (omega arith) (omega (arith, n)) refl)
        (join 8 16 bytes _ _ (omega arith)
          (write_u64_slice 8 16 bytes v (omega arith) (omega (arith, n)) refl)
          (join 16 36 bytes _ _ (omega arith) refl (slice_last 36 68 bytes (omega arith) n))))

encode-decode_chunks :
    (count : ℕ) (body : Bytes) (ss : List CanonicalEventSummary)
    → IsBytes body
    → length body ≡ summary_encoded_len * count
    → decode_chunks count body ≡ ok ss
    → (encode_summaries ss ≡ body) × (length ss ≡ count)
unfolding decode_chunks encode_summaries
encode-decode_chunks zero [] ss v n h = ground arith
encode-decode_chunks zero (b ∷ body) ss v n h = absurd (omega arith)
encode-decode_chunks (suc count) body ss v n h =
    let (t, p, q) = >>=-eq-ok (decode_summary (take 68 body)) _ h in
    let (ts, p', q') = >>=-eq-ok (decode_chunks count (drop 68 body)) _ q in
    let first = encode-decode_summary (take 68 body) t (All-take (λ x. x < 256) 68 body v) p in
    let (rest, k) =
      encode-decode_chunks count (drop 68 body) ts (All-drop (λ x. x < 256) 68 body v)
        (omega (arith, length-drop 68 body)) p' in
    let e : t ∷ ts ≡ ss = cc q' in
    (
      subst (λ x. encode_summaries x ≡ body) e (rw (first, rest) (take-append-drop 68 body)),
      subst (λ x. length x ≡ suc count) e (ap suc k),
    )

snapshot_decoded :
    (bytes : Bytes) (s : EpochStateSnapshot)
    → decode_snapshot bytes ≡ ok s
    → (12 ≤ length bytes)
      × (read_u32_le (slice 8 12 bytes) ≡ 12)
      × (length (drop 12 bytes) % 68 ≡ 0)
      × (length (drop 12 bytes) / 68 ≤ max_event_summaries)
      × (s.epoch_index ≡ read_u64_le (slice 0 8 bytes))
      × (decode_chunks (length (drop 12 bytes) / 68) (drop 12 bytes) ≡ ok s.event_summaries)
unfolding decode_snapshot
snapshot_decoded bytes s h = ground arith

-- Bytes that decode to a snapshot are the encoding of that snapshot, its list bound included.
pub encode-decode_snapshot :
    (bytes : Bytes) (s : EpochStateSnapshot)
    → IsBytes bytes
    → decode_snapshot bytes ≡ ok s
    → encode_snapshot s ≡ ok bytes
unfolding encode_snapshot
encode-decode_snapshot bytes s v h =
    let (long, offset, whole, short, epoch, chunks) = snapshot_decoded bytes s h in
    let (body, count) =
      encode-decode_chunks (length (drop 12 bytes) / 68) (drop 12 bytes) s.event_summaries
        (All-drop (λ x. x < 256) 12 bytes v) (omega arith) chunks in
    let joined : to_le_bytes 8 s.epoch_index
          ++ (to_le_bytes 4 fixed_header_len ++ encode_summaries s.event_summaries)
        ≡ bytes =
      join 0 8 bytes _ _ (omega arith)
        (ap (to_le_bytes 8) epoch ∙ write_u64_slice 0 8 bytes v (omega arith) (omega arith) refl)
        (join 8 12 bytes _ _ (omega arith)
          (ap (to_le_bytes 4) (sym offset)
            ∙ write_u32_slice 8 12 bytes v (omega arith) (omega arith) refl)
          body) in
    ground (arith, joined)
