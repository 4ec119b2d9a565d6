-- ===== src/Quote/Parse/Bounds.antt =====
-- What the parser makes of any bytes: an error exactly for a short quote, and fields of fixed sizes.
use fidrouter.Base.{
  ℕ, ◌+◌, ◌≤◌, ◌<◌, Bytes, ok, err, length, slice, length-slice, length-take, length-drop, ltb,
  ltb→lt, drop, ◌-◌, ◌≡◌, refl, arith, Bool-cases, inl, inr, ◌⊎◌, All,
}
use fidrouter.Quote.Parse.{
  shortest, ParsedTdxQuote, little_endian, cut_fields, too_short, parse_tdx_quote,
}

-- The sizes of the fields, and the room that the signature section has in the quote.
pub record WellSized (room : ℕ) (q : ParsedTdxQuote) : Type 0 where
  pub mrtd_size : length q.mrtd_bytes ≡ 48
  pub rtmr_count : length q.rtmr ≡ 4
  pub rtmr_sizes : All (λ r. length r ≡ 48) q.rtmr
  pub report_size : length q.report_data ≡ 64
  pub svn_size : length q.tcb_svn ≡ 16
  pub signature_bound : length q.signature_section + shortest ≤ room

slice-le : (i j : ℕ) (raw : Bytes) → i ≤ length raw → length (slice i j raw) + i ≤ length raw
unfolding slice
slice-le i j raw h = omega (arith, length-take (j - i) (drop i raw), length-drop i raw)

module _ (raw : Bytes) (long : shortest ≤ length raw) where
  abbrev body : Bytes
  body = slice 48 632 raw

  length-body : length body ≡ 584
  length-body = length-slice 48 632 raw (omega arith) (omega arith)

  size_in_body : (i j : ℕ) → i ≤ j → j ≤ 584 → length (slice i j body) ≡ j - i
  size_in_body i j h k = length-slice i j body h (omega (arith, length-body))

  cut_fields-WellSized : WellSized (length raw) (cut_fields raw)
  unfolding cut_fields
  cut_fields-WellSized = record {
    mrtd_size = size_in_body 136 184 (omega arith) (omega arith);
    rtmr_count = refl;
    rtmr_sizes = (
      size_in_body 328 376 (omega arith) (omega arith),
      (
        size_in_body 376 424 (omega arith) (omega arith),
        (
          size_in_body 424 472 (omega arith) (omega arith),
          (size_in_body 472 520 (omega arith) (omega arith), tt),
        ),
      ),
    );
    report_size = size_in_body 520 584 (omega arith) (omega arith);
    svn_size = size_in_body 0 16 (omega arith) (omega arith);
    signature_bound = slice-le 636 (636 + little_endian (slice 632 636 raw)) raw (omega arith);
  }

-- Any bytes below 636 are refused with their count, and all others are parsed: into a measurement
-- and four runtime measurements of 48 bytes each, 64 bytes of report data, 16 bytes of security
-- version, and a signature section that lies within the quote.
pub parse_tdx_quote_total :
    (raw : Bytes)
    → (length raw < shortest) × (parse_tdx_quote raw ≡ err (too_short raw))
      ⊎ (shortest ≤ length raw)
        × (parse_tdx_quote raw ≡ ok (cut_fields raw))
        × WellSized (length raw) (cut_fields raw)
unfolding parse_tdx_quote
parse_tdx_quote_total raw = elim (Bool-cases (ltb (length raw) shortest)) [
  | inl short ↦ inl (ltb→lt _ _ short, rw short)
  | inr long ↦
      let enough : shortest ≤ length raw = ground arith in
      inr (enough, rw long, cut_fields-WellSized raw enough)
]
