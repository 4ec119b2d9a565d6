-- ===== src/Quote/Parse/Layout.antt =====
-- A quote written out part by part: the layout that the offsets are meant to follow.
use fidrouter.Base.{ℕ, zero, suc, ◌/◌, ◌%◌, ◌<◌, Bytes, [], ◌∷◌, ◌++◌, ◌≡◌, length}

-- `n` bytes of a number, the least significant first.
unfoldable pub to_little_endian : ℕ → ℕ → Bytes
to_little_endian zero v = []
to_little_endian (suc n) v = (v % 256) ∷ to_little_endian n (v / 256)

-- The parts of a quote. The names that the parser drops stand between those that it keeps.
pub record Quote : Type 0 where
  pub version : ℕ
  pub key_type : ℕ
  pub tee_type : ℕ
  pub header_rest : Bytes
  pub tee_tcb_svn : Bytes
  pub seam_to_xfam : Bytes
  pub mrtd : Bytes
  pub config_and_owner : Bytes
  pub rtmr0 : Bytes
  pub rtmr1 : Bytes
  pub rtmr2 : Bytes
  pub rtmr3 : Bytes
  pub report_data : Bytes
  pub signature : Bytes
  pub trailer : Bytes

-- The sizes of the parts, and the ranges of the numbers.
pub record Fits (q : Quote) : Type 0 where
  pub version_fits : q.version < 0x10000
  pub tee_type_fits : q.tee_type < 0x100000000
  pub signature_fits : length q.signature < 0x100000000
  pub header_size : length q.header_rest ≡ 40
  pub svn_size : length q.tee_tcb_svn ≡ 16
  pub seam_size : length q.seam_to_xfam ≡ 120
  pub mrtd_size : length q.mrtd ≡ 48
  pub config_size : length q.config_and_owner ≡ 144
  pub rtmr0_size : length q.rtmr0 ≡ 48
  pub rtmr1_size : length q.rtmr1 ≡ 48
  pub rtmr2_size : length q.rtmr2 ≡ 48
  pub rtmr3_size : length q.rtmr3 ≡ 48
  pub report_size : length q.report_data ≡ 64

unfoldable pub header : Quote → Bytes
header q =
    to_little_endian 2 q.version
    ++ (to_little_endian 2 q.key_type ++ (to_little_endian 4 q.tee_type ++ q.header_rest))

unfoldable pub report_body : Quote → Bytes
report_body q =
    q.tee_tcb_svn
    ++ (q.seam_to_xfam
        ++ (q.mrtd
            ++ (q.config_and_owner
                ++ (q.rtmr0 ++ (q.rtmr1 ++ (q.rtmr2 ++ (q.rtmr3 ++ q.report_data)))))))

unfoldable pub quote_bytes : Quote → Bytes
quote_bytes q =
    header q
    ++ (report_body q ++ (to_little_endian 4 (length q.signature) ++ (q.signature ++ q.trailer)))
