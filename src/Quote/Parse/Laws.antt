-- ===== src/Quote/Parse/Laws.antt =====
-- The parser reads back the parts of a quote, and what it does with any other bytes.
use native.Mathlib.Nat.{pow-suc}
use fidrouter.Base.{
  ℕ, zero, suc, ◌+◌, ◌/◌, ◌^◌, ◌<◌, Bytes, [], ◌∷◌, ◌++◌, ok, length, slice, slice_past,
  slice_first, slice_at, slice_all, length-append, append_assoc, ltb, ◌≡◌, refl, ap, ◌∙◌, arith,
  false,
}
use fidrouter.Quote.Parse.{shortest, little_endian, parse_tdx_quote}
use fidrouter.Quote.Parse.Layout.{to_little_endian, Quote, Fits, header, report_body, quote_bytes}

little_endian-to_little_endian : (n v : ℕ) → v < 256 ^ n → little_endian (to_little_endian n v) ≡ v
unfolding little_endian to_little_endian
little_endian-to_little_endian zero v h = omega arith
little_endian-to_little_endian (suc n) v h =
    let below : v / 256 < 256 ^ n = omega (arith, pow-suc 256 n) in
    omega (arith, little_endian-to_little_endian n (v / 256) below)

length-to_little_endian : (n v : ℕ) → length (to_little_endian n v) ≡ n
unfolding to_little_endian
length-to_little_endian zero v = refl
length-to_little_endian (suc n) v = ap suc (length-to_little_endian n (v / 256))

module _ (q : Quote) (f : Fits q) where
  length-header : length (header q) ≡ 48
  unfolding header
  length-header = omega (
    arith,
    length-append (to_little_endian 2 q.version)
        (to_little_endian 2 q.key_type ++ (to_little_endian 4 q.tee_type ++ q.header_rest)),
    length-append (to_little_endian 2 q.key_type) (to_little_endian 4 q.tee_type ++ q.header_rest),
    length-append (to_little_endian 4 q.tee_type) q.header_rest,
    length-to_little_endian 2 q.version,
    length-to_little_endian 2 q.key_type,
    length-to_little_endian 4 q.tee_type,
  )

  -- The body in eight cuts, from the right.
  abbrev after_rtmr2 : Bytes
  after_rtmr2 = q.rtmr3 ++ q.report_data

  abbrev after_rtmr1 : Bytes
  after_rtmr1 = q.rtmr2 ++ after_rtmr2

  abbrev after_rtmr0 : Bytes
  after_rtmr0 = q.rtmr1 ++ after_rtmr1

  abbrev after_config : Bytes
  after_config = q.rtmr0 ++ after_rtmr0

  abbrev after_mrtd : Bytes
  after_mrtd = q.config_and_owner ++ after_config

  abbrev after_seam : Bytes
  after_seam = q.mrtd ++ after_mrtd

  abbrev after_svn : Bytes
  after_svn = q.seam_to_xfam ++ after_seam

  length-report_body : length (report_body q) ≡ 584
  unfolding report_body
  length-report_body = omega (
    arith,
    length-append q.tee_tcb_svn after_svn,
    length-append q.seam_to_xfam after_seam,
    length-append q.mrtd after_mrtd,
    length-append q.config_and_owner after_config,
    length-append q.rtmr0 after_rtmr0,
    length-append q.rtmr1 after_rtmr1,
    length-append q.rtmr2 after_rtmr2,
    length-append q.rtmr3 q.report_data,
  )

  -- Past the first four parts of the body.
  past_config : (i j : ℕ) → slice (328 + i) (328 + j) (report_body q) ≡ slice i j after_config
  unfolding report_body
  past_config i j =
      slice_at (328 + i) (16 + (120 + (48 + (144 + i)))) (328 + j) (16 + (120 + (48 + (144 + j))))
        (report_body q) (omega arith) (omega arith)
      ∙ slice_past 16 _ _ q.tee_tcb_svn after_svn f.svn_size
      ∙ slice_past 120 _ _ q.seam_to_xfam after_seam f.seam_size
      ∙ slice_past 48 _ _ q.mrtd after_mrtd f.mrtd_size
      ∙ slice_past 144 i j q.config_and_owner after_config f.config_size

  cut_svn : slice 0 16 (report_body q) ≡ q.tee_tcb_svn
  unfolding report_body
  cut_svn = slice_first 16 q.tee_tcb_svn after_svn f.svn_size

  cut_mrtd : slice 136 184 (report_body q) ≡ q.mrtd
  unfolding report_body
  cut_mrtd =
      slice_past 16 120 168 q.tee_tcb_svn after_svn f.svn_size
      ∙ slice_past 120 0 48 q.seam_to_xfam after_seam f.seam_size
      ∙ slice_first 48 q.mrtd after_mrtd f.mrtd_size

  cut_rtmr0 : slice 328 376 (report_body q) ≡ q.rtmr0
  cut_rtmr0 = past_config 0 48 ∙ slice_first 48 q.rtmr0 after_rtmr0 f.rtmr0_size

  cut_rtmr1 : slice 376 424 (report_body q) ≡ q.rtmr1
  cut_rtmr1 =
      past_config 48 96
      ∙ slice_past 48 0 48 q.rtmr0 after_rtmr0 f.rtmr0_size
      ∙ slice_first 48 q.rtmr1 after_rtmr1 f.rtmr1_size

  cut_rtmr2 : slice 424 472 (report_body q) ≡ q.rtmr2
  cut_rtmr2 =
      past_config 96 144
      ∙ slice_past 48 48 96 q.rtmr0 after_rtmr0 f.rtmr0_size
      ∙ slice_past 48 0 48 q.rtmr1 after_rtmr1 f.rtmr1_size
      ∙ slice_first 48 q.rtmr2 after_rtmr2 f.rtmr2_size

  cut_rtmr3 : slice 472 520 (report_body q) ≡ q.rtmr3
  cut_rtmr3 =
      past_config 144 192
      ∙ slice_past 48 96 144 q.rtmr0 after_rtmr0 f.rtmr0_size
      ∙ slice_past 48 48 96 q.rtmr1 after_rtmr1 f.rtmr1_size
      ∙ slice_past 48 0 48 q.rtmr2 after_rtmr2 f.rtmr2_size
      ∙ slice_first 48 q.rtmr3 q.report_data f.rtmr3_size

  cut_report : slice 520 584 (report_body q) ≡ q.report_data
  cut_report =
      past_config 192 256
      ∙ slice_past 48 144 208 q.rtmr0 after_rtmr0 f.rtmr0_size
      ∙ slice_past 48 96 160 q.rtmr1 after_rtmr1 f.rtmr1_size
      ∙ slice_past 48 48 112 q.rtmr2 after_rtmr2 f.rtmr2_size
      ∙ slice_past 48 0 64 q.rtmr3 q.report_data f.rtmr3_size
      ∙ slice_all 64 q.report_data f.report_size

  abbrev after_body : Bytes
  after_body = to_little_endian 4 (length q.signature) ++ (q.signature ++ q.trailer)

  cut_body : slice 48 632 (quote_bytes q) ≡ report_body q
  unfolding quote_bytes
  cut_body =
      slice_past 48 0 584 (header q) (report_body q ++ after_body) length-header
      ∙ slice_first 584 (report_body q) after_body length-report_body

  past_body : (i j : ℕ) → slice (632 + i) (632 + j) (quote_bytes q) ≡ slice i j after_body
  unfolding quote_bytes
  past_body i j =
      slice_at (632 + i) (48 + (584 + i)) (632 + j) (48 + (584 + j)) (quote_bytes q) (omega arith)
        (omega arith)
      ∙ slice_past 48 _ _ (header q) (report_body q ++ after_body) length-header
      ∙ slice_past 584 i j (report_body q) after_body length-report_body

  cut_sig_len : little_endian (slice 632 636 (quote_bytes q)) ≡ length q.signature
  cut_sig_len =
      ap little_endian (
        past_body 0 4
        ∙ slice_first 4 (to_little_endian 4 (length q.signature)) (q.signature ++ q.trailer)
            (length-to_little_endian 4 (length q.signature)))
      ∙ little_endian-to_little_endian 4 (length q.signature) f.signature_fits

  cut_signature : slice 636 (636 + length q.signature) (quote_bytes q) ≡ q.signature
  cut_signature =
      ap (λ k. slice 636 k (quote_bytes q)) (omega arith)
      ∙ past_body 4 (4 + length q.signature)
      ∙ slice_at (4) (4 + 0) (4 + length q.signature) (4 + length q.signature) after_body
          (omega arith) refl
      ∙ slice_past 4 0 (length q.signature) (to_little_endian 4 (length q.signature))
          (q.signature ++ q.trailer) (length-to_little_endian 4 (length q.signature))
      ∙ slice_first (length q.signature) q.signature q.trailer refl

  length-quote_bytes : length (quote_bytes q) ≡ 636 + (length q.signature + length q.trailer)
  unfolding quote_bytes
  length-quote_bytes = omega (
    arith,
    length-append (header q) (report_body q ++ after_body),
    length-append (report_body q) after_body,
    length-append (to_little_endian 4 (length q.signature)) (q.signature ++ q.trailer),
    length-append q.signature q.trailer,
    length-to_little_endian 4 (length q.signature),
    length-header,
    length-report_body,
  )

  abbrev after_version : Bytes
  after_version = to_little_endian 2 q.key_type ++ (to_little_endian 4 q.tee_type ++ q.header_rest)

  -- A cut in the header is a cut in the quote.
  cut_version : slice 0 2 (quote_bytes q) ≡ to_little_endian 2 q.version
  unfolding quote_bytes header
  cut_version =
      ap (slice 0 2)
        (append_assoc (to_little_endian 2 q.version) after_version (report_body q ++ after_body))
      ∙ slice_first 2 (to_little_endian 2 q.version) _ (length-to_little_endian 2 q.version)

  cut_tee_type : slice 4 8 (quote_bytes q) ≡ to_little_endian 4 q.tee_type
  unfolding quote_bytes header
  cut_tee_type =
      ap (slice 4 8)
        (append_assoc (to_little_endian 2 q.version) after_version (report_body q ++ after_body))
      ∙ slice_past 2 2 6 (to_little_endian 2 q.version) _ (length-to_little_endian 2 q.version)
      ∙ ap (slice 2 6) (
          append_assoc (to_little_endian 2 q.key_type)
            (to_little_endian 4 q.tee_type ++ q.header_rest) (report_body q ++ after_body))
      ∙ slice_past 2 0 4 (to_little_endian 2 q.key_type) _ (length-to_little_endian 2 q.key_type)
      ∙ ap (slice 0 4)
          (append_assoc (to_little_endian 4 q.tee_type) q.header_rest (report_body q ++ after_body))
      ∙ slice_first 4 (to_little_endian 4 q.tee_type) _ (length-to_little_endian 4 q.tee_type)

  long_enough : ltb (length (quote_bytes q)) shortest ≡ false
  long_enough = ground (arith, length-quote_bytes)

  -- A quote of the documented layout is accepted, and each field comes back as it was written; the
  -- signature section ends where its length says, whatever follows it.
  pub parse_tdx_quote-quote_bytes :
      parse_tdx_quote (quote_bytes q)
      ≡ ok (record {
        version = q.version;
        tee_type = q.tee_type;
        mrtd_bytes = q.mrtd;
        rtmr = q.rtmr0 ∷ q.rtmr1 ∷ q.rtmr2 ∷ q.rtmr3 ∷ [];
        report_data = q.report_data;
        tcb_svn = q.tee_tcb_svn;
        signature_section = q.signature;
      })
  unfolding parse_tdx_quote
  parse_tdx_quote-quote_bytes = rw long_enough (
      ap ok (λ i. record {
        version =
            (ap little_endian cut_version
                ∙ little_endian-to_little_endian 2 q.version f.version_fits)
              i;
        tee_type =
            (ap little_endian cut_tee_type
                ∙ little_endian-to_little_endian 4 q.tee_type f.tee_type_fits)
              i;
        mrtd_bytes = (ap (slice 136 184) cut_body ∙ cut_mrtd) i;
        rtmr =
            (ap (slice 328 376) cut_body ∙ cut_rtmr0) i
            ∷ (ap (slice 376 424) cut_body ∙ cut_rtmr1) i
            ∷ (ap (slice 424 472) cut_body ∙ cut_rtmr2) i
            ∷ (ap (slice 472 520) cut_body ∙ cut_rtmr3) i
            ∷ [];
        report_data = (ap (slice 520 584) cut_body ∙ cut_report) i;
        tcb_svn = (ap (slice 0 16) cut_body ∙ cut_svn) i;
        signature_section =
            (ap (λ n. slice 636 (636 + n) (quote_bytes q)) cut_sig_len ∙ cut_signature) i;
      }))
