-- ===== src/Quote/Parse.antt =====
-- `parse_tdx_quote`: the fields of a TDX quote, cut out of its bytes.
pub mod Layout
pub mod Laws
pub mod Bounds
use fidrouter.Base.{
  ℕ, zero, suc, ◌+◌, ◌*◌, Text, Bytes, lit, Bool, List, [], ◌∷◌, ◌++◌, Result, ok, Error, dcap,
  refuse, ◌>>=◌, ◌>>◌, length, slice, ltb, ◌==◌, ℤ, pos,
}
use fidrouter.Text.Decimal.{show_int}

abbrev pub header_len : ℕ
header_len = 48

abbrev pub body_len_tdx10 : ℕ
body_len_tdx10 = 584

abbrev pub tee_type_tdx : ℕ
tee_type_tdx = 0x81

pub data Name : Type 0 where
  tee_tcb_svn mrseam mrsignerseam seamattributes tdattributes xfam mrtd mrconfigid : Name
  mrowner mrownerconfig rtmr0 rtmr1 rtmr2 rtmr3 reportdata : Name

-- `_OFF`: the offset within the TD report body.
abbrev pub off : Name → ℕ
off tee_tcb_svn = 0
off mrseam = 16
off mrsignerseam = 64
off seamattributes = 112
off tdattributes = 120
off xfam = 128
off mrtd = 136
off mrconfigid = 184
off mrowner = 232
off mrownerconfig = 280
off rtmr0 = 328
off rtmr1 = 376
off rtmr2 = 424
off rtmr3 = 472
off reportdata = 520

pub record ParsedTdxQuote : Type 0 where
  pub version : ℕ
  pub tee_type : ℕ
  pub mrtd_bytes : Bytes
  pub rtmr : List Bytes
  pub report_data : Bytes
  pub tcb_svn : Bytes
  pub signature_section : Bytes

unfoldable pub is_tdx : ParsedTdxQuote → Bool
is_tdx q = q.tee_type == tee_type_tdx

-- A little-endian number, as `struct.unpack_from` reads `H` and `I`.
unfoldable pub little_endian : Bytes → ℕ
little_endian [] = 0
little_endian (b ∷ bs) = b + 256 * little_endian bs

-- `f(name, n)`
abbrev pub field_at : Bytes → Name → ℕ → Bytes
field_at body name n = slice (off name) (off name + n) body

abbrev pub shortest : ℕ
shortest = header_len + body_len_tdx10 + 4

unfoldable pub cut_fields : Bytes → ParsedTdxQuote
unfolding little_endian
cut_fields raw =
    let body = slice header_len (header_len + body_len_tdx10) raw in
    let sig_off : ℕ = header_len + body_len_tdx10 in
    let sig_len = little_endian (slice sig_off (sig_off + 4) raw) in
    record {
      version = little_endian (slice 0 2 raw);
      tee_type = little_endian (slice 4 8 raw);
      mrtd_bytes = field_at body mrtd 48;
      rtmr =
          field_at body rtmr0 48
          ∷ field_at body rtmr1 48
          ∷ field_at body rtmr2 48
          ∷ field_at body rtmr3 48
          ∷ [];
      report_data = field_at body reportdata 64;
      tcb_svn = field_at body tee_tcb_svn 16;
      signature_section = slice (sig_off + 4) (sig_off + 4 + sig_len) raw;
    }

abbrev pub too_short : Bytes → Error
too_short raw = dcap (lit "quote too short: " ++ (show_int (pos (length raw)) ++ lit " bytes"))

unfoldable pub parse_tdx_quote : Bytes → Result ParsedTdxQuote
unfolding cut_fields
parse_tdx_quote raw = do refuse (ltb (length raw) shortest) (too_short raw); ok (cut_fields raw)
