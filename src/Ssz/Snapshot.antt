-- ===== src/Ssz/Snapshot.antt =====
-- The snapshot's round trip: its header, and the chunks of its list.
use kaysentinel.Base.{
  ◌+◌, ◌*◌, ◌/◌, ◌≤◌, ◌<◌, ◌≡◌, refl, sym, ap, ◌∙◌, List, [], ◌∷◌, ◌++◌, ok, arith, All, length,
  take, drop, slice, slice-append_skip, slice-append_front, drop-drop, length-append, take_all,
  take-append, drop-append,
}
use kaysentinel.Base.Classes.{Bytes, nat_eq}
use kaysentinel.Cse.{u64_mod}
use kaysentinel.Ssz.Integers.{to_le_bytes, from_le_bytes, length-to_le_bytes, from-to_le_bytes}
use kaysentinel.Ssz.Encode.{
  CanonicalEventSummary, summary_encoded_len, encode_summary, EpochStateSnapshot, fixed_header_len,
  encode_summaries, encode_snapshot, max_event_summaries,
}
use kaysentinel.Ssz.Decode.{read_u32_le, decode_chunks, decode_snapshot}
use kaysentinel.Ssz.RoundTrip.{
  IsSummary, read_u64_le-to_le_bytes, length-encode_summary, decode-encode_summary,
}

pub record IsSnapshot (s : EpochStateSnapshot) : Type 0 where
  pub epoch_u64 : s.epoch_index < u64_mod
  pub summaries : All IsSummary s.event_summaries

length-encode_summaries :
    (ss : List CanonicalEventSummary)
    → All IsSummary ss
    → length (encode_summaries ss) ≡ summary_encoded_len * length ss
unfolding encode_summaries
length-encode_summaries [] v = refl
length-encode_summaries (s ∷ ss) v = omega (
  arith,
  length-append (encode_summary s) (encode_summaries ss),
  length-encode_summary s v.0,
  length-encode_summaries ss v.1,
)

decode_chunks-encode :
    (ss : List CanonicalEventSummary)
    → All IsSummary ss
    → decode_chunks (length ss) (encode_summaries ss) ≡ ok ss
unfolding decode_chunks encode_summaries
decode_chunks-encode [] v = refl
decode_chunks-encode (s ∷ ss) v =
    let n = length-encode_summary s v.0 in
    rw (
      take-append summary_encoded_len (encode_summary s) (encode_summaries ss) n,
      drop-append summary_encoded_len (encode_summary s) (encode_summaries ss) n,
      decode-encode_summary s v.0,
      decode_chunks-encode ss v.1,
    )

-- The bytes of a snapshot whose list is short enough.
abbrev wire : EpochStateSnapshot → Bytes
wire s =
    to_le_bytes 8 s.epoch_index
    ++ (to_le_bytes 4 fixed_header_len ++ encode_summaries s.event_summaries)

encode_snapshot_ok :
    (s : EpochStateSnapshot) (bytes : Bytes)
    → encode_snapshot s ≡ ok bytes
    → (bytes ≡ wire s) × (length s.event_summaries ≤ max_event_summaries)
unfolding encode_snapshot
encode_snapshot_ok s bytes h = ground arith

module _ (s : EpochStateSnapshot) (v : IsSnapshot s) where
  epoch_at : slice 0 8 (wire s) ≡ to_le_bytes 8 s.epoch_index
  epoch_at = slice-append_front 8 _ _ (length-to_le_bytes 8 s.epoch_index)

  offset_at : slice 8 12 (wire s) ≡ to_le_bytes 4 fixed_header_len
  offset_at =
      slice-append_skip 8 0 4 _ _ (length-to_le_bytes 8 s.epoch_index)
      ∙ slice-append_front 4 _ _ (length-to_le_bytes 4 fixed_header_len)

  offset_read : read_u32_le (slice 8 12 (wire s)) ≡ fixed_header_len
  unfolding read_u32_le
  offset_read =
      ap (λ t. from_le_bytes (take 4 t)) offset_at
      ∙ ap from_le_bytes (take_all 4 _ (length-to_le_bytes 4 fixed_header_len))
      ∙ from-to_le_bytes 4 fixed_header_len (omega arith)

  body_at : drop 12 (wire s) ≡ encode_summaries s.event_summaries
  body_at =
      sym (drop-drop 8 4 (wire s))
      ∙ ap (drop 4)
          (drop-append 8 (to_le_bytes 8 s.epoch_index) _ (length-to_le_bytes 8 s.epoch_index))
      ∙ drop-append 4 (to_le_bytes 4 fixed_header_len) _ (length-to_le_bytes 4 fixed_header_len)

  length-wire : length (wire s) ≡ 12 + summary_encoded_len * length s.event_summaries
  length-wire = omega (
    arith,
    length-append (to_le_bytes 8 s.epoch_index)
        (to_le_bytes 4 fixed_header_len ++ encode_summaries s.event_summaries),
    length-append (to_le_bytes 4 fixed_header_len) (encode_summaries s.event_summaries),
    length-to_le_bytes 8 s.epoch_index,
    length-to_le_bytes 4 fixed_header_len,
    length-encode_summaries s.event_summaries v.summaries,
  )

  decode-wire : length s.event_summaries ≤ max_event_summaries → decode_snapshot (wire s) ≡ ok s
  unfolding decode_snapshot
  decode-wire h =
      let n = length-encode_summaries s.event_summaries v.summaries in
      let count : length (encode_summaries s.event_summaries) / summary_encoded_len
          ≡ length s.event_summaries =
        omega (arith, n) in
      ground (
        arith,
        offset_read,
        body_at,
        length-wire,
        n,
        count,
        read_u64_le-to_le_bytes s.epoch_index _ v.epoch_u64 epoch_at,
        decode_chunks-encode s.event_summaries v.summaries,
      )

-- Decoding the bytes of a snapshot whose integers and arrays have their Rust widths gives that
-- snapshot back.
pub decode-encode_snapshot :
    (s : EpochStateSnapshot) (bytes : Bytes)
    → IsSnapshot s
    → encode_snapshot s ≡ ok bytes
    → decode_snapshot bytes ≡ ok s
decode-encode_snapshot s bytes v h =
    let (e, short) = encode_snapshot_ok s bytes h in ap decode_snapshot e ∙ decode-wire s v short
